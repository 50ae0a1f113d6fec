-- ===== src/Cli/ClientMain/Ending.antt =====
-- src/cli/client_main.cpp: the client ends.
use cpp_db.Base.{
  ap, sym, ◌∙◌, ◌++◌, OnResult, Bool, Bytes, List, Option, Returns, [], arith, false, length, none,
  refl, some, suc, true, zero, ℕ, ◌+◌, ◌<◌, ◌∷◌, ◌≡◌, ◌≤◌, ◌⊎◌, Bool-cases, Option-cases, inl, inr,
  str_eq, is_empty, codes, ◌||◌,
}
use cpp_db.Storage.File.{fgets, fill}
use cpp_db.Network.Server.{recv_line}
use cpp_db.Network.Sockets.{Sockets}
use cpp_db.Network.Client.{request_text, send_exit, send_sql, connect_to_server, send_line}
use cpp_db.Cli.Display.{text_behind, display_response}
use cpp_db.Cli.Display.Whole.{
  last_byte-append, last_byte-line, EndsUnquoted, display_response-Lines, last_byte, Lines,
}
use cpp_db.Cli.ClientMain.{
  greeting, farewell, Exit, client_main, parse_port, read_line, repl, round, session,
}
use mathlib.Core.List.{append_assoc}

length-fill : (room : ℕ) (text : Bytes) → length (fill room text).1 ≤ length text
unfolding fill
length-fill zero text = omega arith
length-fill (suc room) [] = omega arith
length-fill (suc room) (c ∷ cs) = let h = length-fill room cs in ground arith

fill_shorter : (room : ℕ) (c : ℕ) (cs : Bytes) → length (fill (suc room) (c ∷ cs)).1 ≤ length cs
unfolding fill
fill_shorter room c cs = let h = length-fill room cs in ground arith

lt_suc : {m n : ℕ} → m ≤ n → m < suc n
lt_suc h = omega arith

read_line_shorter : (stdin : Bytes) → OnResult (read_line stdin) (λ r. length r.1 < length stdin)
unfolding read_line fgets
read_line_shorter [] = tt
read_line_shorter (c ∷ cs) = lt_suc (fill_shorter 8190 c cs)

goodbye : (xs ys : Bytes) → last_byte (xs ++ (ys ++ codes "Goodbye.\n")) ≡ 10
unfolding last_byte
goodbye xs ys =
    ap last_byte (sym (append_assoc xs ys (codes "Goodbye.\n")))
    ∙ last_byte-append (xs ++ ys) b'G' (codes "oodbye.\n")

module _ (net : Sockets) where
  open net use {Net}

  -- No line that the server sends ends in a quote.
  abbrev pub Unquoted : Type 0
  Unquoted = (n : Net) → EndsUnquoted (recv_line (net.incoming n)).0

  send_sql-EndsUnquoted :
      Unquoted
      → (host : Bytes) (port : ℕ) (sql : Bytes) (n : Net)
      → EndsUnquoted (send_sql net host port sql n).0
  unfolding send_sql last_byte
  send_sql-EndsUnquoted u host port sql n =
      let c = connect_to_server net host port n in
      elim (Bool-cases c.0) [
        | inr e ↦ rw (send_sql, e) (λ e. omega arith)
        | inl e ↦ elim (Bool-cases (send_line net (request_text sql) c.1).0) [
          | inr g ↦ rw (send_sql, e, g) (λ e. omega arith)
          | inl g ↦ rw (send_sql, e, g) (u (send_line net (request_text sql) c.1).1)
        ]
      ]

  -- What is shown for an answer of the server.
  display-Returns :
      (response : Bytes) (n : Net)
      → EndsUnquoted response
      → Returns {A = Bytes × Bool × Net}
          (elim (display_response response) [ none ↦ none | some text ↦ some (text, true, n) ])
          (λ r. Lines r.0)
  display-Returns response n u =
      (elim (display_response response)
          as (λ o.
            Returns o Lines
            → Returns {A = Bytes × Bool × Net}
                (elim o [ none ↦ none | some text ↦ some (text, true, n) ]) (λ r. Lines r.0)) [
                  | none ↦ λ k. absurd k
                  | some text ↦ λ k. k
                ])
        (display_response-Lines response u)

  Lines-farewell : (resp : Bytes) → Lines (farewell resp)
  unfolding farewell
  Lines-farewell resp = elim (Bool-cases (is_empty resp)) [
    | inl e ↦ rw (farewell, e) (inl refl)
    | inr e ↦ elim (Option-cases (text_behind (codes "\"message\":\"") resp)) [
      | inl g ↦ rw (farewell, e, g) (inl refl)
      | inr (msg, g) ↦ rw (farewell, e, g) (inr (last_byte-line msg))
    ]
  ]

  round-Returns :
      Unquoted
      → (host : Bytes) (port : ℕ) (input : Bytes) (n : Net)
      → Returns (round net host port input n) (λ r. Lines r.0)
  unfolding round last_byte
  round-Returns u host port input n = elim (Bool-cases (is_empty input)) [
    | inl e ↦ rw (round, e) (inl refl)
    | inr e ↦ elim (Bool-cases (str_eq input (codes "exit") || str_eq input (codes "quit"))) [
      | inl f ↦ rw (round, e, f) (Lines-farewell (send_exit net host port n).0)
      | inr f ↦ elim (Bool-cases (str_eq input (codes "help"))) [
        | inl g ↦ rw (round, e, f, g) (inr refl)
        | inr g ↦ elim (Bool-cases (is_empty (send_sql net host port input n).0)) [
          | inl k ↦ rw (round, e, f, g, k) (inr refl)
          | inr k ↦
              rw (round, e, f, g, k)
                (display-Returns (send_sql net host port input n).0
                  (send_sql net host port input n).1 (send_sql-EndsUnquoted u host port input n))
        ]
      ]
    ]
  ]

  -- The rest of the loop behind a round.
  go_on :
      (connected : Bool) (text : Bytes) (n : Net) (o : Option (Bytes × Net))
      → Returns o (λ r. Unit)
      → Returns {A = Bytes × Net}
          (elim connected [
            | false ↦ some (codes "minidb> " ++ text, n)
            | true ↦ elim o [
              | none ↦ none
              | some (more, n2) ↦ some (codes "minidb> " ++ (text ++ more), n2)
            ]
          ])
          (λ r. Unit)
  go_on false text n o h = tt
  go_on true text n none h = h
  go_on true text n (some r) h = tt

  repl-Returns :
      Unquoted
      → (fuel : ℕ) (host : Bytes) (port : ℕ) (stdin : Bytes) (n : Net) → length stdin < fuel
      → Returns (repl net fuel host port stdin n) (λ r. Unit)
  unfolding repl
  repl-Returns u zero host port stdin n lt = absurd (omega arith)
  repl-Returns u (suc fuel) host port stdin n lt =
      (elim (read_line stdin)
          as (λ o.
            read_line stdin ≡ o
            → OnResult o (λ r. length r.1 < length stdin)
            → Returns (repl net (suc fuel) host port stdin n) (λ r. Unit)) [
              | none ↦ λ e k. rw (repl, e) tt
              | some (input, rest) ↦ λ e k.
                  (elim (round net host port input n)
                      as (λ o.
                        round net host port input n ≡ o
                        → Returns o (λ r. Lines r.0)
                        → Returns (repl net (suc fuel) host port stdin n) (λ r. Unit)) [
                          | none ↦ λ f l. absurd l
                          | some (text, connected, n1) ↦ λ f l.
                              rw (repl, e, f)
                                (go_on connected text n1 (repl net fuel host port rest n1)
                                  (repl-Returns u fuel host port rest n1 (omega arith)))
                        ])
                    refl (round-Returns u host port input n)
            ])
        refl (read_line_shorter stdin)

  -- How the program ends: having said goodbye with exit code 0, or at once with exit code 1, a message on the
  -- standard error and nothing sent.
  abbrev pub Ended : Net → Exit Net → Type 0
  Ended n e = ((e.code ≡ 0) × (last_byte e.out ≡ 10)) ⊎ ((e.code ≡ 1) × (e.out ≡ []) × (e.net ≡ n))

  session-Ended :
      Unquoted
      → (host : Bytes) (port : ℕ) (stdin : Bytes) (n : Net)
      → Returns (session net host port stdin n) (Ended n)
  unfolding session
  session-Ended u host port stdin n =
      (elim (repl net (length stdin + 1) host port stdin n)
          as (λ o.
            repl net (length stdin + 1) host port stdin n ≡ o
            → Returns o (λ r. Unit)
            → Returns (session net host port stdin n) (Ended n)) [
              | none ↦ λ e k. absurd k
              | some (text, n1) ↦
                  λ e k. rw (session, e) (inl (refl, goodbye (greeting host port) text))
            ])
        refl (repl-Returns u (length stdin + 1) host port stdin n (omega arith))

  -- The client ends on every input, with any arguments: each round of its loop reads a byte of the input
  -- at least, and what the server answers is shown without a fault, if no line that the server sends
  -- ends in a quote.
  pub client_main-Ended :
      Unquoted
      → (args : List Bytes) (stdin : Bytes) (n : Net)
      → Returns (client_main net args stdin n) (Ended n)
  unfolding client_main
  client_main-Ended u [] stdin n = session-Ended u (codes "127.0.0.1") 3307 stdin n
  client_main-Ended u (host ∷ []) stdin n = session-Ended u host 3307 stdin n
  client_main-Ended u (host ∷ arg ∷ args) stdin n = elim (Option-cases (parse_port arg)) [
    | inl e ↦ rw (client_main, e) (inr (refl, refl, refl))
    | inr (port, e) ↦ rw (client_main, e) (session-Ended u host port stdin n)
  ]
