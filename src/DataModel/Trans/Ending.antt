-- ===== src/DataModel/Trans/Ending.antt =====
-- src/core/dm_trans.c: how a commit ends.
use usp_agent_stomp.Common.{
  ℕ, zero, suc, ◌≤◌, ◌<◌, ◌≡◌, refl, ◌∙◌, subst, true, false, Option, none, some, List, [], ◌∷◌,
  arith, All,
}
use usp_agent_stomp.Result.{UspErr, ok, Returns, Returns->>=}
use usp_agent_stomp.DataModel.Instances.{Schema}
use usp_agent_stomp.DataModel.Instances.Tree.{view, Holds}
use usp_agent_stomp.DataModel.Trans.{
  Trans, Dm, Outcome, begin_transaction, commit_transaction, External, with_transaction, call_hook,
  database_start_transaction, database_commit_transaction, dm_trans_is_within_transaction,
  undo_loop, abort_databases, dm_trans_abort, aborted, database_started, dm_trans_start,
}
use usp_agent_stomp.DataModel.Trans.Commit.{
  notify, notify_loop, cascade, committed, database_committed, vendor_committed, commit_round,
  dm_trans_commit,
}
use usp_agent_stomp.DataModel.Trans.Journal.{
  IsUndoable, undone_all, undo_loop-undone, Spares, call_hook-Spares, exec_checked-Spares,
  abort_databases-Spares,
}

-- The transaction is open, and its journal holds only operations that can be undone and whose rank
-- is below `n`.
pub record IsBounded {W : Type 0} (schema : Schema) (rank : Trans → ℕ) (n : ℕ) (s : Dm W)
    : Type 0 where
  pub ops : List Trans
  pub opened : s.cur_transaction ≡ some ops
  pub low : All (λ dt. (rank dt < n) × IsUndoable schema dt) ops

-- The call-backs cascade finitely: told of an operation, they make only operations of a lower rank,
-- and they leave the transaction open; and the vendor's start of a transaction does not fail.
pub record IsSettling {W : Type 0} (ext : External W) (schema : Schema) (rank : Trans → ℕ)
    : Type 0 where
  pub starts : (s : Dm W) → (call_hook ext.start_trans_cb s).0 ≡ none
  pub lower :
      (n : ℕ) (dt : Trans) (s : Dm W)
      → rank dt ≤ n
      → IsBounded schema rank n s
      → Returns (IsBounded schema rank n) (notify ext dt s)

All-IsUndoable :
    (schema : Schema) (rank : Trans → ℕ) (n : ℕ) (ops : List Trans)
    → All (λ dt. (rank dt < n) × IsUndoable schema dt) ops
    → All (IsUndoable schema) ops
All-IsUndoable schema rank n [] h = tt
All-IsUndoable schema rank n (dt ∷ ops) (h, hs) = (h.1, All-IsUndoable schema rank n ops hs)

abbrev IsClosed : {W : Type 0} → Option UspErr × Dm W → Type 0
IsClosed r = r.1.cur_transaction ≡ none

abort-IsClosed :
    {W : Type 0} (ext : External W) (schema : Schema) (s : Dm W) (ops : List Trans)
    → s.cur_transaction ≡ some ops
    → All (IsUndoable schema) ops
    → Returns IsClosed (dm_trans_abort ext schema s)
unfolding dm_trans_abort
abort-IsClosed ext schema s ops e u = rw e (
    Returns->>= (Holds (undone_all schema ops (view s.vectors))) IsClosed
      (undo_loop schema ops s.vectors)
      (λ vs. ok (abort_databases ext (record s { vectors = vs; cur_transaction = none })))
      (undo_loop-undone schema ops s.vectors u)
      (λ vs h. (abort_databases-Spares ext (record s { vectors = vs; cur_transaction = none })).1))

aborted-IsClosed :
    {W : Type 0} (ext : External W) (schema : Schema) (rank : Trans → ℕ) (n : ℕ) (s : Dm W)
    (e : UspErr)
    → IsBounded schema rank n s
    → Returns IsClosed (aborted ext schema s e)
unfolding aborted
aborted-IsClosed ext schema rank n s e b =
    Returns->>= IsClosed IsClosed (dm_trans_abort ext schema s) (λ r. ok (some e, r.1))
      (abort-IsClosed ext schema s b.ops b.opened (All-IsUndoable schema rank n b.ops b.low))
      (λ r h. h)

Spares-IsBounded :
    {W : Type 0} (schema : Schema) (rank : Trans → ℕ) (n : ℕ) (s r : Dm W)
    → Spares s r
    → IsBounded schema rank n s
    → IsBounded schema rank n r
Spares-IsBounded schema rank n s r h b = record {
  ops = b.ops;
  opened = h.1 ∙ b.opened;
  low = b.low;
}

notify_loop-IsBounded :
    {W : Type 0} (ext : External W) (schema : Schema) (rank : Trans → ℕ) (n : ℕ)
    → IsSettling ext schema rank
    → (ops : List Trans) (s : Dm W) → All (λ dt. (rank dt < suc n) × IsUndoable schema dt) ops
    → IsBounded schema rank n s
    → Returns (IsBounded schema rank n) (notify_loop ext ops s)
unfolding notify_loop
notify_loop-IsBounded ext schema rank n c [] s l b = b
notify_loop-IsBounded ext schema rank n c (dt ∷ ops) s (l, ls) b =
    Returns->>= (IsBounded schema rank n) (IsBounded schema rank n) (notify ext dt s)
      (notify_loop ext ops) (c.lower n dt s (ground (arith, l.0)) b)
      (λ s' b'. notify_loop-IsBounded ext schema rank n c ops s' ls b')

database_started-IsBounded :
    {W : Type 0} (ext : External W) (schema : Schema) (rank : Trans → ℕ) (n : ℕ) (e : Option UspErr)
    (s : Dm W)
    → IsSettling ext schema rank
    → IsBounded schema rank n s
    → Returns (λ r. IsBounded schema rank n r.1) (database_started ext schema e s)
database_started-IsBounded ext schema rank n (some e) s c b = b
database_started-IsBounded ext schema rank n none s c b = rw (c.starts s) (
    Spares-IsBounded schema rank n s (call_hook ext.start_trans_cb s).1
      (call_hook-Spares ext.start_trans_cb s) b)

start-IsBounded :
    {W : Type 0} (ext : External W) (schema : Schema) (rank : Trans → ℕ) (n : ℕ) (s : Dm W)
    → IsSettling ext schema rank
    → s.cur_transaction ≡ none
    → Returns (λ r. IsBounded schema rank n r.1) (dm_trans_start ext schema s)
unfolding dm_trans_start dm_trans_is_within_transaction
start-IsBounded ext schema rank n s c e =
    let s1 = with_transaction s (some []) in
    let r = database_start_transaction ext s1 in
    rw e (
      database_started-IsBounded ext schema rank n r.0 r.1 c (
        Spares-IsBounded schema rank n s1 r.1 (exec_checked-Spares ext begin_transaction s1)
          (record { ops = []; opened = refl; low = tt })))

abbrev Closes : {W : Type 0} → Schema → (Trans → ℕ) → ℕ → (Dm W → Outcome W) → Type 0
Closes {W} schema rank n f = (s : Dm W) → IsBounded schema rank n s → Returns IsClosed (f s)

closed :
    {W : Type 0} (s : Dm W) → s.cur_transaction ≡ none → dm_trans_is_within_transaction s ≡ false
unfolding dm_trans_is_within_transaction
closed s e = rw e refl

opened :
    {W : Type 0} (s : Dm W) (ops : List Trans)
    → s.cur_transaction ≡ some ops
    → dm_trans_is_within_transaction s ≡ true
unfolding dm_trans_is_within_transaction
opened s ops e = rw e refl

module _ {W : Type 0} (ext : External W) (schema : Schema) (rank : Trans → ℕ)
    (c : IsSettling ext schema rank) where
  cascade-IsClosed :
      (n : ℕ) (recurse : Dm W → Outcome W) (ops : List Trans) (s : Dm W)
      → Closes schema rank n recurse
      → All (λ dt. (rank dt < suc n) × IsUndoable schema dt) ops
      → Returns IsClosed (cascade ext schema recurse ops s)
  unfolding cascade
  cascade-IsClosed n recurse ops s h l =
      Returns->>= (λ r. IsBounded schema rank n r.1) IsClosed
        (dm_trans_start ext schema (with_transaction s none)) _
        (start-IsBounded ext schema rank n (with_transaction s none) c refl)
        (λ r b.
          Returns->>= (IsBounded schema rank n) IsClosed (notify_loop ext ops r.1) _
            (notify_loop-IsBounded ext schema rank n c ops r.1 l b)
            (λ s' b'.
              Returns->>= IsClosed IsClosed (recurse s') _ (h s' b') (λ q e. rw (closed q.1 e) e)))

  committed-IsClosed :
      (n : ℕ) (recurse : Dm W → Outcome W) (s : Dm W) (ops : List Trans)
      → ((m : ℕ) → n ≡ suc m → Closes schema rank m recurse)
      → s.cur_transaction ≡ some ops
      → All (λ dt. (rank dt < n) × IsUndoable schema dt) ops
      → Returns IsClosed (committed ext schema recurse s)
  unfolding committed cascade
  committed-IsClosed n recurse s [] h e l = rw e refl
  committed-IsClosed zero recurse s (dt ∷ ops) h e (l, ls) = ground (arith, l.0)
  committed-IsClosed (suc n) recurse s (dt ∷ ops) h e l =
      rw e (cascade-IsClosed n recurse (dt ∷ ops) s (h n refl) l)

  database_committed-IsClosed :
      (n : ℕ) (recurse : Dm W → Outcome W) (e : Option UspErr)
      → ((m : ℕ) → n ≡ suc m → Closes schema rank m recurse)
      → Closes schema rank n (database_committed ext schema recurse e)
  database_committed-IsClosed n recurse (some e) h s b = aborted-IsClosed ext schema rank n s e b
  database_committed-IsClosed n recurse none h s b =
      committed-IsClosed n recurse s b.ops h b.opened b.low

  vendor_committed-IsClosed :
      (n : ℕ) (recurse : Dm W → Outcome W) (e : Option UspErr)
      → ((m : ℕ) → n ≡ suc m → Closes schema rank m recurse)
      → Closes schema rank n (vendor_committed ext schema recurse e)
  vendor_committed-IsClosed n recurse (some e) h s b = aborted-IsClosed ext schema rank n s e b
  vendor_committed-IsClosed n recurse none h s b =
      let r = database_commit_transaction ext s in
      database_committed-IsClosed n recurse r.0 h r.1
        (Spares-IsBounded schema rank n s r.1 (exec_checked-Spares ext commit_transaction s) b)

  round-IsClosed :
      (n : ℕ) (recurse : Dm W → Outcome W)
      → ((m : ℕ) → n ≡ suc m → Closes schema rank m recurse)
      → Closes schema rank n (commit_round ext schema recurse)
  round-IsClosed n recurse h s b =
      let r = call_hook ext.commit_trans_cb s in
      rw (opened s b.ops b.opened) (
        vendor_committed-IsClosed n recurse r.0 h r.1
          (Spares-IsBounded schema rank n s r.1 (call_hook-Spares ext.commit_trans_cb s) b))

-- DM_TRANS_Commit ends, passes all its assertions and closes the transaction, whether or not the
-- databases commit, where the operations of the journal can be undone, the vendor's call-back for
-- the start of a transaction never refuses one, and the notify call-backs cascade finitely: `n`
-- rounds are enough below rank `n`.
pub dm_trans_commit_returns :
    {W : Type 0} (ext : External W) (schema : Schema) (rank : Trans → ℕ) (n : ℕ) (s : Dm W)
    → IsSettling ext schema rank
    → IsBounded schema rank n s
    → Returns (λ r. r.1.cur_transaction ≡ none) (dm_trans_commit (suc n) ext schema s)
unfolding dm_trans_commit
dm_trans_commit_returns ext schema rank zero s c b =
    round-IsClosed ext schema rank c zero (dm_trans_commit zero ext schema)
      (λ m e. absurd (ground arith)) s b
dm_trans_commit_returns ext schema rank (suc n) s c b =
    round-IsClosed ext schema rank c (suc n) (dm_trans_commit (suc n) ext schema)
      (λ m e s' b'.
        dm_trans_commit_returns ext schema rank n s' c
          (let same : m ≡ n = ground (arith, e) in subst (λ k. IsBounded schema rank k s') same b'))
      s b
