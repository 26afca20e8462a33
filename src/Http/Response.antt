-- ===== src/Http/Response.antt =====
-- src/main.cpp: `BuildResponse`.
use my_etcd.Base.{ℕ, [], ◌∷◌, ◌++◌, ◌==◌, if◌then◌else◌, Bytes, bytes_key, length}
use my_etcd.OrdMap.{OrdMap, insert}
use my_etcd.Server.Json.{codes, digits, decimal, HttpResponse}

unfoldable pub reason : ℕ → Bytes
reason code =
    if code == 200
    then codes "OK"
    else if code == 400
    then codes "Bad Request"
    else if code == 404
    then codes "Not Found"
    else if code == 500
    then codes "Internal Server Error"
    else if code == 503
    then codes "Service Unavailable"
    else codes "Unknown"

unfoldable pub header_text : OrdMap Bytes Bytes → Bytes
header_text [] = []
header_text ((key, value) ∷ headers) =
    key ++ (codes ": " ++ (value ++ (codes "\r\n" ++ header_text headers)))

unfoldable pub response_headers : HttpResponse → OrdMap Bytes Bytes
unfolding digits
response_headers resp = insert (codes "Server") (codes "my-etcd/1.0") (
    insert (codes "Connection") (codes "close")
      (insert (codes "Content-Length") (decimal (length resp.body)) resp.headers))

unfoldable pub build_response : HttpResponse → Bytes
unfolding reason header_text response_headers digits
build_response resp =
    codes "HTTP/1.1 "
    ++ (decimal resp.status_code
        ++ (codes " "
            ++ (reason resp.status_code
                ++ (codes "\r\n"
                    ++ (header_text (response_headers resp) ++ (codes "\r\n" ++ resp.body))))))
