-- ===== src/Network/Session.antt =====
-- src/network: the client and the server at the two ends of a connection.
use cpp_db.Base.{
  ◌==◌, ◌||◌, not, is_empty, false, if◌then◌else◌, arith, OnResult, Option-cases, ap, inl, inr,
  subst, refl, ◌∙◌, Bytes, List, Option, [], none, some, true, length, ℕ, ◌++◌, ◌∷◌, ◌≡◌, All, ◌<◌,
}
use cpp_db.Storage.Disk.{FileSystem}
use cpp_db.Execution.State.{Executor}
use cpp_db.Network.Sockets.{Sockets}
use cpp_db.Network.Client.{connect_to_server, request_text, send_line, send_sql}
use cpp_db.Network.Server.{
  accepts, delivered, Reply, Served, answer_sql, recv_line, serve_connection,
}
use cpp_db.Network.Server.Lines.{IsSendable, answer_all, serve_connection-lines}
use cpp_db.Network.Protocol.Requests.{InLine, recv_line-append}

-- The lines that the server sends for its answers (`send_line` of server.cpp).
abbrev pub reply_lines : List Bytes → Bytes
reply_lines [] = []
reply_lines (r ∷ rs) = r ++ 10 ∷ reply_lines rs

-- What one end has sent, up to the last newline.
abbrev pub whole_lines : Bytes → Bytes
whole_lines [] = []
whole_lines (c ∷ cs) =
    let rest = whole_lines cs in if c == 10 || not (is_empty rest) then c ∷ rest else []

whole_lines-line : (text : Bytes) → whole_lines (text ++ 10 ∷ []) ≡ text ++ 10 ∷ []
whole_lines-line [] = refl
whole_lines-line (c ∷ cs) =
    let present : is_empty (cs ++ 10 ∷ []) ≡ false = nonempty cs in
    let keeps : (c == 10 || not false) ≡ true = ground arith in
    rw (whole_lines, whole_lines-line cs, present, keeps) refl
  where
    nonempty : (cs : Bytes) → is_empty (cs ++ 10 ∷ []) ≡ false
    nonempty [] = refl
    nonempty (c ∷ cs) = refl

-- An answer that the client's buffer holds.
pub record IsAnswer (response : Bytes) : Type 0 where
  pub in_line : All InLine response
  pub short : length response < 8191

module _ (fs : FileSystem) where
  open fs use {Disk}

  -- The server, unless it has faulted, and what was sent to it in the connection that is open.
  pub record Wire : Type 0 where
    pub executor : Option (Executor Disk)
    pub sent : Bytes

  -- What the server makes of a connection.
  abbrev pub served : Wire → Option (Served fs)
  served w = elim w.executor [
    | none ↦ none
    | some x ↦ serve_connection fs x (record { stream = w.sent; writes = λ _. delivered })
  ]

  -- What the server has sent, and the state that the client's closing of the connection leaves.
  abbrev pub replies : Option (Served fs) → Bytes
  replies none = []
  replies (some s) = reply_lines s.answers

  abbrev pub behind : Option (Served fs) → Wire
  behind none = record { executor = none; sent = [] }
  behind (some s) = record { executor = some s.executor; sent = [] }

  -- The sockets of a client whose peer is the server. While the connection is open, the server answers the
  -- lines whose newline it has received, and waits for the rest of another. The client gets the lines whose
  -- newline the server has sent, and would wait for the rest of another for ever. When the client closes the
  -- connection, the server reads what is left as a line and goes on with the next one.
  abbrev pub loopback : Sockets
  loopback = record {
    Net = Wire;
    socket = λ w. (true, w);
    getaddrinfo = λ host. some 0;
    inet_addr = λ host. 0;
    connect = λ address port w. (true, record w { sent = [] });
    write = λ text w. (true, record w { sent = w.sent ++ text });
    incoming = λ w. whole_lines (replies (served (record w { sent = whole_lines w.sent })));
    close = λ w. behind (served w);
  }

  -- The line that the client reads from what it is sent.
  abbrev heard : Wire → Bytes × Bytes
  heard w = recv_line (whole_lines (replies (served w)))

  abbrev pub wire : Executor Disk → Wire
  wire x = record { executor = some x; sent = [] }

  -- A client that sends statements, each in a connection of its own.
  abbrev pub send_all : Bytes → ℕ → List Bytes → Wire → List Bytes × Wire
  send_all host port [] w = ([], w)
  send_all host port (sql ∷ sqls) w =
      let (response, w1) = send_sql loopback host port sql w in
      let (responses, w2) = send_all host port sqls w1 in (response ∷ responses, w2)

  -- The connection with one request.
  served_request :
      (x : Executor Disk) (sql : Bytes) (r : Reply fs)
      → IsSendable sql
      → answer_sql fs x sql ≡ some r
      → served (record { executor = some x; sent = request_text sql ++ 10 ∷ [] })
        ≡ some (record { executor = r.executor; answers = r.response ∷ []; ending = accepts })
  served_request x sql r s e =
      serve_connection-lines fs x (sql ∷ []) (s, tt) ∙ rw (answer_all, e) refl

  send_sql-answer_sql :
      (x : Executor Disk) (host : Bytes) (port : ℕ) (sql : Bytes) (r : Reply fs)
      → IsSendable sql
      → answer_sql fs x sql ≡ some r
      → IsAnswer r.response
      → send_sql loopback host port sql (wire x) ≡ (r.response, wire r.executor)
  unfolding send_sql connect_to_server send_line
  send_sql-answer_sql x host port sql r s e a =
      ap
        (λ text. (
          (heard (record { executor = some x; sent = text })).0,
          behind (served (record { executor = some x; sent = request_text sql ++ 10 ∷ [] })),
        ))
        (whole_lines-line (request_text sql))
      ∙ ap (λ o. ((recv_line (whole_lines (replies o))).0, behind o)) (served_request x sql r s e)
      ∙ ap (λ text. ((recv_line text).0, wire r.executor)) (whole_lines-line r.response)
      ∙ ap (λ p. (p.0, wire r.executor)) (recv_line-append r.response [] a.in_line a.short)

  send_cons :
      (x : Executor Disk) (host : Bytes) (port : ℕ) (sql : Bytes) (sqls : List Bytes) (r : Reply fs)
      (t : Served fs)
      → send_sql loopback host port sql (wire x) ≡ (r.response, wire r.executor)
      → send_all host port sqls (wire r.executor) ≡ (t.answers, wire t.executor)
      → send_all host port (sql ∷ sqls) (wire x) ≡ (r.response ∷ t.answers, wire t.executor)
  send_cons x host port sql sqls r t e f =
      ap
        (λ (p : Bytes × Wire).
          let (responses, w) = send_all host port sqls p.1 in (p.0 ∷ responses, w))
        e
      ∙ ap (λ (p : List Bytes × Wire). (r.response ∷ p.0, p.1)) f

  -- The client gets the answers.
  abbrev Hears : Executor Disk → Bytes → ℕ → List Bytes → Served fs → Type 0
  Hears x host port sqls s =
      All IsAnswer s.answers → send_all host port sqls (wire x) ≡ (s.answers, wire s.executor)

  Hears-cons :
      (x : Executor Disk) (host : Bytes) (port : ℕ) (sql : Bytes) (sqls : List Bytes) (r : Reply fs)
      (o : Option (Served fs))
      → IsSendable sql
      → answer_sql fs x sql ≡ some r
      → OnResult o (Hears r.executor host port sqls)
      → OnResult {A = Served fs}
          (elim o [ none ↦ none | some s ↦ some (record s { answers = r.response ∷ s.answers }) ])
          (Hears x host port (sql ∷ sqls))
  Hears-cons x host port sql sqls r none k u h = tt
  Hears-cons x host port sql sqls r (some t) k u h = λ (i, a).
      send_cons x host port sql sqls r t (send_sql-answer_sql x host port sql r k u i) (h a)

  answer_all-Hears :
      (x : Executor Disk) (host : Bytes) (port : ℕ) (sqls : List Bytes)
      → All IsSendable sqls
      → OnResult (answer_all fs x sqls) (Hears x host port sqls)
  answer_all-Hears x host port [] h = λ a. refl
  answer_all-Hears x host port (sql ∷ sqls) (k, h) = elim (Option-cases (answer_sql fs x sql)) [
    | inl u ↦ rw (answer_all, u) tt
    | inr (r, u) ↦
        rw (answer_all, u)
          (Hears-cons x host port sql sqls r (answer_all fs r.executor sqls) k u
            (answer_all-Hears r.executor host port sqls h))
  ]

  -- A client that sends statements, each in a connection of its own, gets the answers to these
  -- statements executed one after the other, and leaves the server in the state behind them, if each
  -- statement fits the buffers and has no quote, line break, carriage return or NUL, and each answer
  -- fits the client's buffer in one line.
  pub send_all-answer_all :
      (x : Executor Disk) (host : Bytes) (port : ℕ) (sqls : List Bytes) (s : Served fs)
      → All IsSendable sqls
      → answer_all fs x sqls ≡ some s
      → All IsAnswer s.answers
      → send_all host port sqls (wire x) ≡ (s.answers, wire s.executor)
  send_all-answer_all x host port sqls s h e a =
      subst (λ o. OnResult o (Hears x host port sqls)) e (answer_all-Hears x host port sqls h) a
