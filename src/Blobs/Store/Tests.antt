-- ===== src/Blobs/Store/Tests.antt =====
-- The list after an initialization with room for 20 runs and 5 blobs.
