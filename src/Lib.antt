-- ===== src/Lib.antt =====
-- Verification of the vision code of JPL-Vision: the Raspberry Pi camera plugin for the robot,
-- mjpg-streamer-master/mjpg-streamer-experimental/plugins/input_raspicam_696. Six parts are
-- modelled: the color blob detector (detect_color_blobs.c, detect_color_blobs.h), the UDP messages
-- (udp_comms.c, udp_comms.h), the TCP messages (tcp_comms.c, tcp_comms.h), the tags in the header
-- of a JPEG file (overwrite_tif_tags.c), the colors of YUV420 images (yuv420.c) and a test image
-- (yuv_color_space_image.c). Of the streamer, the HTTP server of
-- mjpg-streamer-master/mjpg-streamer-experimental/plugins/output_http/httpd.c, the client of such
-- a server in plugins/input_http, the ring of pictures of plugins/output_file and the pictures of
-- a UVC camera in plugins/input_uvc are modelled. An image in YUV420 goes into the detector; out
-- comes a list of color blobs with their boxes, pixel counts and coordinate sums, and the
-- statistics of the best ones go to all UDP clients with the time on the client's clock. The
-- limits of the detector and the settings of the camera come over TCP.
--
-- The detector. Each row of U and V values is split into runs within the limits
-- (create_uv_run_sequence), these into runs that are bright enough (detect_yuv_runs_in_row), and
-- runs of neighbouring rows that share a column are put into one blob (yuv_run_row_union,
-- yuv_run_union). Blobs are sets in a disjoint-set forest (make_set, find_root, link, set_parent),
-- and each root has an entry in a dense list with the statistics of its blob (stats_init,
-- stats_add_singleton, stats_add). After the detection small blobs are removed, boxes and
-- statistics are copied out, and boxes are drawn into the image.
--
-- The messages. message_loop waits for packets. A sender gets an entry in the table of clients
-- (lookup_client_info); its answers to Request_Time messages synchronize the clocks
-- (handle_echo_time, send_request_time). The camera thread sends blob lists to all clients
-- (udp_comms_send_blobs_to_all).
--
-- The settings. server_thread accepts connections over TCP, takes parameters from the other side
-- and sends its own (tcp_params_byte_swap); connection_thread takes messages that each change a
-- parameter and set it in the camera. Texts go to all clients (tcp_comms_send_string). The
-- parameters start as tcp_params_construct leaves them, with the defaults of the camera from
-- plugins/input_raspicam/RaspiCamControl.c.
--
-- The tags. overwrite_tif_tags writes the exposure, the gains, the color and the boxes of the
-- detector into the header of a JPEG file, as TIFF tags.
--
-- The colors. yuv420_get_pixel reads one pixel, and convert_yuv420_to_rgb and
-- convert_rgb_to_yuv420 convert whole images.
--
-- The network. A client of the HTTP server (plugins/output_http/httpd.c) sends lines (_readline),
-- the first of which says what it wants (client_thread). It gets a stream of pictures
-- (send_stream), a command is passed on to a plugin (command), or it gets an error (send_error).
-- plugins/input_http (mjpg-proxy.c, misc.c, input_http.c) is a client of such a stream:
-- send_request_and_process_response passes all that it receives to extract_data, which finds the
-- pictures between the boundaries and calls on_image_received with each. worker_thread of
-- plugins/output_file stores pictures as files and removes the oldest (maintain_ringbuffer), and
-- memcpy_picture of plugins/input_uvc copies a picture of the camera and adds the Huffman tables
-- that it lacks.
--
-- The files. Common holds Boolean tests, lists, arrays and signed integers. Blobs/Types, Udp/Types
-- and Tcp/Types have the C structs as records. Blobs/Stats, Blobs/Forest, Blobs/Union, Blobs/Runs,
-- Blobs/Rows, Blobs/Detect, Blobs/Store, Blobs/Report, Blobs/Draw and Blobs/Total each model some
-- functions of detect_color_blobs.c under their own names, and Udp/Table, Udp/Send, Udp/Echo,
-- Udp/Status and Udp/Loop those of udp_comms.c, and Tcp/Cases, Tcp/Handle (connection_thread),
-- Tcp/Swap, Tcp/Server and Tcp/Text those of tcp_comms.c; Tif models overwrite_tif_tags.c, Color
-- and Color/Encode model yuv420.c, Space models yuv_color_space_image.c, and Http models
-- decodeBase64 of httpd.c; the files in the folder of that name prove things of them, and the
-- Tests files run them on small inputs. Blobs/Forest/Valid states the invariant of a blob list,
-- Blobs/Union/Spec what a union of two runs promises, Blobs/Rows/Advance what that of two rows
-- promises, and Udp/Loop/Invariant the invariant of the client table; Udp/Loop/Samples says which
-- round trips have been accepted for a client, Udp/Loop/Gains what one round adds to its
-- statistics, and Udp/Loop/Statistics what is in them in the end. Tcp/Swap/Wire has the parameters
-- as bytes in memory. Blobs/Detect/RowRuns says which runs an image has, Blobs/Detect/Labels which
-- labels they get, Blobs/Detect/Labelled and Blobs/Detect/Connected what becomes of them, and
-- Blobs/Rows/Colors and Blobs/Rows/Recolor that blobs which do not touch stay apart. Http/Line,
-- Http/Escape, Http/Request, Http/Request/Answer, Http/Command and Http/Stream follow httpd.c, and
-- Proxy the client; Proxy/Header, Proxy/Search, Proxy/Frames, Proxy/Chunks and Proxy/Limits are
-- about extract_data, and Http/Stream/Images is about both sides of a stream. FileOutput is
-- plugins/output_file/output_file.c, and Uvc the pictures of plugins/input_uvc/v4l2uvc.c.
--
-- The model. An array is a function from indices, so what the code needs to stay inside an array
-- is proved about indices and counts and not checked by the model. A function that changes a
-- Blob_List or a Udp_Comms returns the new one. In the detector the result is `none` where an
-- assert fails; a theorem that a call returns `some` says that no assert fails. There unsigned
-- short wraps at 2^16, unsigned int and unsigned long at 2^32, as on the 32-bit processor of the
-- camera. int and int64_t are unbounded: signed overflow has no meaning in C, and pixel counts
-- below 2^31 and times in microseconds do not reach it. In the messages, what sendto, recvfrom and
-- the clock return are arguments, a round of the loop is an event, and a function runs as one
-- step. The TCP messages are modelled the same way: a round of connection_thread gets what recv
-- has written and shows the calls of the camera's setters, a round of server_thread gets what
-- accept, recv and pthread_create give. There an int has 32 bits where its bytes count, a float or
-- a double is its bit pattern, and the conversions and comparisons of floats are a record of
-- functions.
--
-- In Http and Proxy a buffer is the list of the bytes of it that count. The client's calls of recv
-- and the server's calls of read are lists of what arrives; a connection on which nothing more
-- arrives is at an end. `none` in Proxy is a read or write outside an array. The flag that stops
-- the client is read with each byte and after each call of recv, and may change between any two.
--
-- Loops. A loop over a counter is a recursion on the number of rounds. create_uv_run_sequence and
-- detect_yuv_runs_in_row get fuel for one round per column and per run, yuv_run_row_union one
-- round per run, find_root_recursive one call per entry; the theorems about them prove the full
-- result, so this is enough. is_huffman has fuel for the 2049 positions that the code looks at.
-- message_loop, server_thread and the rounds of connection_thread are folds over the lists of
-- their events.
--
-- Not modelled: the allocation of the run buffers in detect_color_blobs, debug prints, log texts
-- and the code that the preprocessor leaves out, the opening of the sockets and the locks, the
-- files of yuv420.c, and the other parts of the repository: the streamer, the files, scripts,
-- snapshots and descriptions of its HTTP output, the connections of plugins/input_http, its other
-- plugins, the copy of the MMAL library, and the programs in C++, Java and Python. qsort_r is an
-- argument of copy_best_bounding_boxes, and malloc's results are arguments of blob_list_init,
-- where `none` stands for NULL.
pub mod Blobs
pub mod Color
pub mod Common
pub mod FileOutput
pub mod Http
pub mod Proxy
pub mod Space
pub mod Tcp
pub mod Tif
pub mod Udp
pub mod Uvc
