-- ===== src/Http/Stream.antt =====
-- The stream that a client of the HTTP server gets, send_stream of plugins/output_http/httpd.c, and
-- send_error. A write is all of its bytes or fails; `printed` and `printed_06` stand for what sprintf
-- prints for %d and %06d.
pub mod Images
use jpl_vision.Common.{
  ℕ, ◌+◌, ◌*◌, Bool, not, ◌&&◌, List, [], ◌∷◌, ◌++◌, length, ltb, ◌==◌, if◌then◌else◌, codes,
}

abbrev pub std_header : List ℕ
std_header =
    codes
      "Connection: close\r\nServer: MJPG-Streamer/0.2\r\nCache-Control: no-store, no-cache, must-revalidate, pre-check=0, post-check=0, max-age=0\r\nPragma: no-cache\r\nExpires: Mon, 3 Jan 2000 12:34:56 GMT\r\n"

abbrev pub boundary_line : List ℕ
boundary_line = codes "--boundarydonotcross\r\n"

-- What is written for an error; another number than those is answered as 501.
pub send_error : ℕ → List ℕ → List ℕ
send_error which message =
    if which == 401
    then codes "HTTP/1.0 401 Unauthorized\r\nContent-type: text/plain\r\n"
      ++ std_header
      ++ codes "WWW-Authenticate: Basic realm=\"MJPG-Streamer\"\r\n\r\n401: Not Authenticated!\r\n"
      ++ message
    else if which == 404
    then codes "HTTP/1.0 404 Not Found\r\nContent-type: text/plain\r\n"
      ++ std_header
      ++ codes "\r\n404: Not Found!\r\n"
      ++ message
    else if which == 500
    then codes "HTTP/1.0 500 Internal Server Error\r\nContent-type: text/plain\r\n"
      ++ std_header
      ++ codes "\r\n500: Internal Server Error!\r\n"
      ++ message
    else if which == 400
    then codes "HTTP/1.0 400 Bad Request\r\nContent-type: text/plain\r\n"
      ++ std_header
      ++ codes "\r\n400: Not Found!\r\n"
      ++ message
    else if which == 403
    then codes "HTTP/1.0 403 Forbidden\r\nContent-type: text/plain\r\n"
      ++ std_header
      ++ codes "\r\n403: Forbidden!\r\n"
      ++ message
    else codes "HTTP/1.0 501 Not Implemented\r\nContent-type: text/plain\r\n"
      ++ std_header
      ++ codes "\r\n501: Not Implemented!\r\n"
      ++ message

-- One turn of the loop: the value of pglobal->stop, the frame and its time, whether realloc gives
-- memory when it is asked, and which of the three writes succeed.
pub record Turn : Type 0 where
  pub stop : Bool
  pub frame : List ℕ
  pub tv_sec : ℕ
  pub tv_usec : ℕ
  pub has_memory : Bool
  pub header_written : Bool
  pub frame_written : Bool
  pub boundary_written : Bool

pub stream_header : List ℕ
stream_header =
    codes "HTTP/1.0 200 OK\r\nAccess-Control-Allow-Origin: *\r\n"
    ++ std_header
    ++ codes
        "Content-Type: multipart/x-mixed-replace;boundary=boundarydonotcross\r\n\r\n--boundarydonotcross\r\n"

module _ (printed printed_06 : ℕ → List ℕ) where
  pub part_header : Turn → List ℕ
  part_header t =
      codes "Content-Type: image/jpeg\r\nContent-Length: "
      ++ (printed (length t.frame)
          ++ (codes "\r\nX-Timestamp: "
              ++ (printed t.tv_sec ++ (codes "." ++ (printed_06 t.tv_usec ++ codes "\r\n\r\n")))))

  -- The three writes of a turn; `rest` is what is written after them. A write that fails ends the loop.
  pub send_frame : Turn → List ℕ → List ℕ
  unfolding part_header
  send_frame t rest =
      if not t.header_written
      then []
      else part_header t
        ++ (if not t.frame_written
            then []
            else t.frame
              ++ (if not t.boundary_written
                  then []
                  else codes "\r\n--boundarydonotcross\r\n" ++ rest))

  -- The loop, with max_frame_size: the bytes that are written until it ends.
  pub send_frames : List Turn → ℕ → List ℕ
  unfolding send_frame send_error
  send_frames [] max_frame_size = []
  send_frames (t ∷ ts) max_frame_size =
      let frame_size = length t.frame in
      let grows = ltb max_frame_size frame_size in
      let rest = send_frames ts (if grows then frame_size + 10 * 1024 else max_frame_size) in
      if t.stop
      then []
      else if grows && not t.has_memory
      then send_error 500 (codes "not enough memory")
      else send_frame t rest

  -- The whole answer; `written` says whether the first write succeeds.
  pub send_stream : Bool → List Turn → List ℕ
  unfolding send_frames stream_header
  send_stream written ts = if written then stream_header ++ send_frames ts 0 else []
