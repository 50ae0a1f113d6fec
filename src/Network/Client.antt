-- ===== src/Network/Client.antt =====
-- src/network/client.cpp: the requests, and a connection for each. The client reads an answer by the
-- `recv_line` of the server, of which it has a copy.
use cpp_db.Base.{
  ◌%◌, ◌∷◌, Bool, Bytes, [], codes, false, if◌then◌else◌, none, not, snprintf, some, true, ℕ, ◌++◌,
}
use cpp_db.Network.Server.{recv_line}
use cpp_db.Network.Sockets.{Sockets}

-- The request of `send_sql`, printed to a buffer of MAX_MSG bytes.
unfoldable pub request_text : Bytes → Bytes
unfolding snprintf
request_text sql = snprintf 8192 (codes "{\"type\":\"sql\",\"sql\":\"" ++ (sql ++ codes "\"}"))

-- The request of `send_exit`.
abbrev pub exit_text : Bytes
exit_text = codes "{\"type\":\"exit\"}"

-- The answers that `send_sql` makes up when the server cannot be reached.
abbrev pub connect_failed : Bytes
connect_failed = codes "{\"status\":\"error\",\"message\":\"Failed to connect to server\"}"

abbrev pub send_failed : Bytes
send_failed = codes "{\"status\":\"error\",\"message\":\"Failed to send request\"}"

module _ (net : Sockets) where
  open net use {Net}

  -- The address of a host.
  abbrev pub resolve : Bytes → ℕ
  resolve host = elim (net.getaddrinfo host) [ none ↦ net.inet_addr host | some a ↦ a ]

  -- `connect_to_server`: whether there is a connection.
  unfoldable pub connect_to_server : Bytes → ℕ → Net → Bool × Net
  connect_to_server host port n =
      let (opened, n1) = net.socket n in
      if not opened
      then (false, n1)
      else let (connected, n2) = net.connect (resolve host) (port % 65536) n1 in
        (if connected then (true, n2) else (false, net.close n2))

  -- `send_line`
  unfoldable pub send_line : Bytes → Net → Bool × Net
  send_line msg n =
      let (sent, n1) = net.write msg n in if sent then net.write (10 ∷ []) n1 else (false, n1)

  -- `send_sql`
  unfoldable pub send_sql : Bytes → ℕ → Bytes → Net → Bytes × Net
  unfolding connect_to_server send_line request_text recv_line
  send_sql host port sql n =
      let (connected, n1) = connect_to_server host port n in
      if not connected
      then (connect_failed, n1)
      else let (sent, n2) = send_line (request_text sql) n1 in
        ((if sent then (recv_line (net.incoming n2)).0 else send_failed), net.close n2)

  -- `send_exit`, which does not look at whether the request is sent.
  unfoldable pub send_exit : Bytes → ℕ → Net → Bytes × Net
  unfolding connect_to_server send_line recv_line
  send_exit host port n =
      let (connected, n1) = connect_to_server host port n in
      if not connected
      then ([], n1)
      else let (_, n2) = send_line exit_text n1 in ((recv_line (net.incoming n2)).0, net.close n2)
