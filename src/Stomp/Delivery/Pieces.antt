-- ===== src/Stomp/Delivery/Pieces.antt =====
-- src/core/stomp.c: a frame that goes out in several writes.
use usp_agent_stomp.Common.{
  ℕ, zero, suc, ◌+◌, ◌≤◌, ◌<◌, ◌≡◌, ◌∙◌, true, none, List, [], ◌∷◌, ◌++◌, arith, All,
}
use usp_agent_stomp.Common.Int.{pos}
use usp_agent_stomp.Result.{Result, ok, ◌>>=◌, Returns, Returns->>=}
use usp_agent_stomp.Stomp.Types.{running, SendItem, Conn}
use usp_agent_stomp.Stomp.Connection.{Env}
use usp_agent_stomp.Stomp.Receive.{Event}
use usp_agent_stomp.Stomp.Transmit.{transmit_stomp_message}

-- One call of TransmitStompMessage after another, each with the bytes that its write has sent.
unfoldable pub transmit_all : Env → List ℕ → Conn → Result Conn
transmit_all env [] sc = ok sc
transmit_all env (n ∷ ns) sc =
    transmit_stomp_message env (pos n) sc >>= (λ r. transmit_all env ns r.0)

abbrev pub total : List ℕ → ℕ
total [] = 0
total (n ∷ ns) = n + total ns

-- The frame of the queue's first record is out and the record gone.
pub record IsSent (rest : List SendItem) (d : Conn) : Type 0 where
  pub no_frame : d.txframe ≡ none
  pub unqueued : d.usp_record_send_queue ≡ rest
  pub still_running : d.state ≡ running

abbrev pub IsPositiveNat : ℕ → Type 0
IsPositiveNat n = 0 < n

last_piece :
    (env : Env) (sc : Conn) (first : SendItem) (rest : List SendItem) (last : ℕ)
    → sc.state ≡ running
    → sc.txframe_contains_usp_record ≡ true
    → sc.usp_record_send_queue ≡ first ∷ rest
    → 0 < last
    → sc.txframe_len ≤ sc.txframe_sent_count + last
    → Returns (λ r. IsSent rest r.0) (transmit_stomp_message env (pos last) sc)
unfolding transmit_stomp_message
last_piece env sc first rest zero run rec queue h le = absurd (omega arith)
last_piece env sc first rest (suc last) run rec queue h le = ground arith

abbrev IsPartly : Conn → ℕ → Conn → Type 0
IsPartly sc n d =
    (d.state ≡ sc.state)
    × (d.txframe_contains_usp_record ≡ sc.txframe_contains_usp_record)
    × (d.usp_record_send_queue ≡ sc.usp_record_send_queue)
    × (d.txframe_len ≡ sc.txframe_len)
    × (d.txframe_sent_count ≡ sc.txframe_sent_count + n)

some_piece :
    (env : Env) (sc : Conn) (n : ℕ)
    → 0 < n
    → sc.txframe_sent_count + n < sc.txframe_len
    → Returns (λ r. IsPartly sc n r.0) (transmit_stomp_message env (pos n) sc)
unfolding transmit_stomp_message
some_piece env sc zero h lt = absurd (omega arith)
some_piece env sc (suc n) h lt = ground arith

-- A frame with the queue's first record that goes out in pieces of any positive sizes is taken off
-- with its record when the last piece is out, the later records still queued in their order.
pub transmit_all_lem :
    (ns : List ℕ) (env : Env) (sc : Conn) (first : SendItem) (rest : List SendItem) (last : ℕ)
    → sc.state ≡ running
    → sc.txframe_contains_usp_record ≡ true
    → sc.usp_record_send_queue ≡ first ∷ rest
    → All IsPositiveNat ns
    → 0 < last
    → sc.txframe_sent_count + total ns < sc.txframe_len
    → sc.txframe_len ≤ sc.txframe_sent_count + total ns + last
    → Returns (IsSent rest) (transmit_all env (ns ++ last ∷ []) sc)
unfolding transmit_all
transmit_all_lem [] env sc first rest last run rec queue hs h lt le =
    Returns->>= (λ (r : Conn × List Event). IsSent rest r.0) (IsSent rest) _ (λ r. ok r.0)
      (last_piece env sc first rest last run rec queue h (omega arith)) (λ r u. u)
transmit_all_lem (n ∷ ns) env sc first rest last run rec queue (hn, hs) h lt le =
    Returns->>= (λ (r : Conn × List Event). IsPartly sc n r.0) (IsSent rest) _
      (λ r. transmit_all env (ns ++ last ∷ []) r.0) (some_piece env sc n hn (omega arith))
      (λ r u.
        transmit_all_lem ns env r.0 first rest last (u.0 ∙ run) (u.1 ∙ rec) (u.2 ∙ queue) hs h
          (omega (arith, u.3, u.4)) (omega (arith, u.3, u.4)))
