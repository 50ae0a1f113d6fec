-- ===== src/Network/Server/Exit.antt =====
-- src/network/server.cpp: a request to exit stops the server.
use cpp_db.Base.{
  ◌≢◌, Option, Returns_mono, subst, suc, sym, zero, ◌+◌, ◌<◌, arith, Bytes, List, Returns, [], none,
  some, length, ℕ, ◌++◌, ◌∷◌, ◌≡◌, codes, inl, inr, refl,
}
use cpp_db.Storage.Database.{save_all}
use cpp_db.Storage.Disk.{FileSystem}
use cpp_db.Execution.State.{Executor}
use cpp_db.Execution.Executor.{new_executor, shutdown}
use cpp_db.Network.Client.{exit_text}
use cpp_db.Network.Protocol.{is_exit_request}
use cpp_db.Network.Protocol.Requests.{recv_line-append}
use cpp_db.Network.Server.{
  Connection, Ending, Sending, accepts, delivered, dies, exits, refused, signalled, Served,
  answer_request, recv_line, run_server, serve, serve_all, serve_connection, serve_request,
}
use cpp_db.Network.Server.Invariant.{Ending-cases, Ready, serve_connection-Ready}
use cpp_db.Network.Server.Lines.{printable-InLine}

-- A connection whose first line is the request of `send_exit`.
abbrev pub exit_connection : Bytes → (ℕ → Sending) → Connection
exit_connection rest writes = record { stream = exit_text ++ 10 ∷ rest; writes = writes }

exit_received : (rest : Bytes) → recv_line (exit_text ++ 10 ∷ rest) ≡ (exit_text, rest)
exit_received rest =
    recv_line-append exit_text rest (printable-InLine exit_text refl) (ground arith)

module _ (fs : FileSystem) where
  -- What a connection with such a line leaves, unless the signal kills the server.
  abbrev Stopped : Executor fs.Disk → Served fs → Type 0
  Stopped x s = (s.ending ≡ exits) × (s.executor ≡ x)

  serve_request-Stopped :
      (go_on : Executor fs.Disk → Option (Served fs)) (x : Executor fs.Disk) (sending : Sending)
      → sending ≢ signalled
      → Returns (serve_request fs go_on x sending exit_text) (Stopped x)
  unfolding serve_request answer_request is_exit_request
  serve_request-Stopped go_on x delivered q = (refl, refl)
  serve_request-Stopped go_on x refused q = (refl, refl)
  serve_request-Stopped go_on x signalled q = absurd (q refl)

  serve-Stopped :
      (fuel : ℕ) (x : Executor fs.Disk) (writes : ℕ → Sending) (rest : Bytes)
      → 0 < fuel
      → writes 0 ≢ signalled
      → Returns (serve fs fuel x writes 0 (exit_text ++ 10 ∷ rest)) (Stopped x)
  unfolding serve
  serve-Stopped zero x writes rest h q = absurd (omega arith)
  serve-Stopped (suc fuel) x writes rest h q =
      subst
        (λ (p : Bytes × Bytes).
          Returns (serve_request fs (λ y. serve fs fuel y writes 1 p.1) x (writes 0) p.0)
            (Stopped x))
        (sym (exit_received rest))
        (serve_request-Stopped (λ y. serve fs fuel y writes 1 rest) x (writes 0) q)

  serve_connection-Stopped :
      (x : Executor fs.Disk) (rest : Bytes) (writes : ℕ → Sending)
      → writes 0 ≢ signalled
      → Returns (serve_connection fs x (exit_connection rest writes)) (Stopped x)
  unfolding serve_connection
  serve_connection-Stopped x rest writes q =
      serve-Stopped (length (exit_text ++ 10 ∷ rest) + 1) x writes rest (omega arith) q

  -- How the loop over the connections ends with such a connection behind others, from how it ends on these.
  abbrev closing : Executor fs.Disk × Ending → Executor fs.Disk × Ending
  closing (x, accepts) = (x, exits)
  closing (x, exits) = (x, exits)
  closing (x, dies) = (x, dies)

  serve_all-exit :
      (x : Executor fs.Disk) (before after : List Connection) (rest : Bytes) (writes : ℕ → Sending)
      → writes 0 ≢ signalled
      → Ready fs x
      → Returns
          (serve_all fs x before)
          (λ r. serve_all fs x (before ++ exit_connection rest writes ∷ after) ≡ some (closing r))
  unfolding serve_all
  serve_all-exit x [] after rest writes q h =
      (elim (serve_connection fs x (exit_connection rest writes))
          as (λ o.
            serve_connection fs x (exit_connection rest writes) ≡ o
            → Returns o (Stopped x)
            → serve_all fs x (exit_connection rest writes ∷ after) ≡ some (x, exits)) [
              | none ↦ λ e k. absurd k
              | some s ↦ λ e k. rw (serve_all, e, k.0, k.1) refl
            ])
        refl (serve_connection-Stopped x rest writes q)
  serve_all-exit x (c ∷ before) after rest writes q h =
      let cs : List Connection = before ++ exit_connection rest writes ∷ after in
      (elim (serve_connection fs x c)
          as (λ o.
            serve_connection fs x c ≡ o
            → Returns o (λ s. Ready fs s.executor)
            → Returns (serve_all fs x (c ∷ before))
                (λ r. serve_all fs x (c ∷ cs) ≡ some (closing r))) [
                  | none ↦ λ e k. absurd k
                  | some s ↦ λ e k. elim (Ending-cases s.ending) [
                    | inl g ↦
                        rw (serve_all, e, g)
                          (serve_all-exit s.executor before after rest writes q k)
                    | inr (inl g) ↦ rw (serve_all, e, g) refl
                    | inr (inr g) ↦ rw (serve_all, e, g) refl
                  ]
                ])
        refl (serve_connection-Ready fs x c h)

  -- The disk with the tables of the open database, if any, written to it.
  abbrev pub saved : Executor fs.Disk → fs.Disk
  saved x = elim x.current_db [ none ↦ x.disk | some db ↦ (save_all fs db x.disk).1 ]

  -- The end of the server that is asked to exit, from how its loop ends on the connections before.
  abbrev pub at_exit : Executor fs.Disk × Ending → Executor fs.Disk × Ending
  at_exit (x, dies) = (x, dies)
  at_exit (x, _) = (record x { disk = saved x }, exits)

  -- A client that asks the server to exit stops it, whatever the clients before it have sent and whether
  -- or not its own answer can be written, if writing it does not kill the server by SIGPIPE. The loop over
  -- the connections before it ends in a state; unless one of them has killed the server in that state, the
  -- server returns with that state, in which only the disk has changed: `save_all` has written the open
  -- database, if any, to it.
  pub run_server-exit :
      (disk : fs.Disk) (before after : List Connection) (rest : Bytes) (writes : ℕ → Sending)
      → writes 0 ≢ signalled
      → Returns (serve_all fs (new_executor fs (codes "data") disk) before) (λ r.
        run_server fs disk (before ++ exit_connection rest writes ∷ after) ≡ some (at_exit r))
  unfolding run_server new_executor shutdown
  run_server-exit disk before after rest writes q =
      let x0 : Executor fs.Disk = new_executor fs (codes "data") disk in
      let cs : List Connection = before ++ exit_connection rest writes ∷ after in
      Returns_mono (serve_all fs x0 before) _ (λ r. run_server fs disk cs ≡ some (at_exit r))
        (serve_all-exit x0 before after rest writes q refl) (λ r e. returned r e)
    where
      returned :
          (r : Executor fs.Disk × Ending)
          → serve_all fs
              (new_executor fs (codes "data") disk)
              (before ++ exit_connection rest writes ∷ after)
            ≡ some (closing r)
          → run_server fs disk (before ++ exit_connection rest writes ∷ after) ≡ some (at_exit r)
      returned (x, accepts) e = rw (run_server, e) refl
      returned (x, exits) e = rw (run_server, e) refl
      returned (x, dies) e = rw (run_server, e) refl
