-- ===== src/Timer/Entries.antt =====
-- src/core/sync_timer.c: what a change at one index does to the timers.
use usp_agent_stomp.Common.{
  ℕ, zero, suc, ◌≤◌, ◌<◌, ◌≡◌, refl, sym, ap, ◌∙◌, subst, ◌≢◌, inl, inr, true, false, some, List,
  [], ◌∷◌, arith, ◌==◌, Bool-cases, length, get_elem?, All,
}
use usp_agent_stomp.Result.{Returns}
use usp_agent_stomp.Timer.{SyncTimer, Timers, is_timer, change_at, is_due, mark_fired, Callbacks}
use usp_agent_stomp.Timer.Keys.{
  has_timer, Distinct, IsCalled, lookup, Distinct-change_at, All-change_at,
}

-- There is one timer for each call-back and id, each with a call-back.
pub record IsKeyed (l : List SyncTimer) : Type 0 where
  pub distinct : Distinct l
  pub called : All IsCalled l

-- No timer among the first `n` is due.
abbrev pub NoneDue : ℕ → ℕ → List SyncTimer → Type 0
NoneDue cur_time n l =
    (j : ℕ) (st : SyncTimer) → j < n → get_elem? l j ≡ some st → is_due cur_time st ≡ false

-- The timers are as many, and one is due only where one was due before.
pub record IsCalmed (cur_time : ℕ) (l l' : List SyncTimer) : Type 0 where
  pub as_many : length l' ≡ length l
  pub no_new :
      (j : ℕ) (st : SyncTimer)
      → get_elem? l' j ≡ some st
      → is_due cur_time st ≡ true
      → (st' : SyncTimer) × (get_elem? l j ≡ some st') × (is_due cur_time st' ≡ true)

-- The call-backs return, keep `Inv`, add and remove no timer, and set none to a time that has
-- passed; the call-back of a timer may rely on that timer's time having come.
pub record IsCalm {W : Type 0} (callback : Callbacks W) (cur_time : ℕ)
    (Inv : List SyncTimer × W → Type 0) : Type 0 where
  pub marked : (i : ℕ) (l : List SyncTimer) (w : W) → Inv (l, w) → Inv (change_at mark_fired i l, w)
  pub calls :
      (ts : Timers) (w : W) (st : SyncTimer)
      → IsKeyed ts.vector
      → Inv (ts.vector, w)
      → lookup st.timer_cb st.id ts.vector ≡ some st
      → st.next_timeout ≤ cur_time
      → Returns
          (λ r. IsKeyed r.0.vector × Inv (r.0.vector, r.1) × IsCalmed cur_time ts.vector r.0.vector)
          (callback st.timer_cb st.id (ts, w))

pub length-change_at :
    (f : SyncTimer → SyncTimer) (i : ℕ) (l : List SyncTimer) → length (change_at f i l) ≡ length l
unfolding change_at
length-change_at f i [] = refl
length-change_at f zero (x ∷ l) = refl
length-change_at f (suc i) (x ∷ l) = ap suc (length-change_at f i l)

pub get-change_at :
    (f : SyncTimer → SyncTimer) (i : ℕ) (l : List SyncTimer) (st : SyncTimer)
    → get_elem? l i ≡ some st
    → get_elem? (change_at f i l) i ≡ some (f st)
unfolding change_at
get-change_at f i [] st h = cc
get-change_at f zero (x ∷ l) st h = ground arith
get-change_at f (suc i) (x ∷ l) st h = get-change_at f i l st h

get_other-change_at :
    (f : SyncTimer → SyncTimer) (i j : ℕ) (l : List SyncTimer)
    → (i ≢ j)
    → get_elem? (change_at f i l) j ≡ get_elem? l j
unfolding change_at
get_other-change_at f i j [] n = refl
get_other-change_at f zero zero (x ∷ l) n = absurd (n refl)
get_other-change_at f zero (suc j) (x ∷ l) n = refl
get_other-change_at f (suc i) zero (x ∷ l) n = refl
get_other-change_at f (suc i) (suc j) (x ∷ l) n =
    get_other-change_at f i j l (λ e. n (ap (λ k. suc k) e))

has-get :
    (c j i : ℕ) (l : List SyncTimer) (st : SyncTimer)
    → get_elem? l i ≡ some st
    → is_timer c j st ≡ true
    → has_timer c j l ≡ true
unfolding has_timer
has-get c j i [] st h e = cc
has-get c j zero (x ∷ l) st h e = ground arith
has-get c j (suc i) (x ∷ l) st h e = ground (arith, has-get c j i l st h e)

pub lookup-get :
    (i : ℕ) (l : List SyncTimer) (st : SyncTimer)
    → Distinct l
    → get_elem? l i ≡ some st
    → lookup st.timer_cb st.id l ≡ some st
unfolding lookup
lookup-get i [] st d h = cc
lookup-get zero (x ∷ l) st d h = ground arith
lookup-get (suc i) (x ∷ l) st (n, d) h =
    ground (arith, lookup-get i l st d h, has-get x.timer_cb x.id i l st h)

pub IsKeyed-marked : (i : ℕ) (l : List SyncTimer) → IsKeyed l → IsKeyed (change_at mark_fired i l)
IsKeyed-marked i l h = record {
  distinct = Distinct-change_at mark_fired i l (λ st. (refl, refl)) h.distinct;
  called = All-change_at mark_fired i l (λ st. (refl, refl)) h.called;
}

pub All-get :
    (i : ℕ) (l : List SyncTimer) (st : SyncTimer)
    → All IsCalled l
    → get_elem? l i ≡ some st
    → IsCalled st
All-get i [] st a h = cc
All-get zero (x ∷ l) st (p, a) h = let same : x ≡ st = ground arith in subst IsCalled same p
All-get (suc i) (x ∷ l) st (p, a) h = All-get i l st a h

pub NoneDue-marked :
    (cur i : ℕ) (l : List SyncTimer) (st : SyncTimer)
    → get_elem? l i ≡ some st
    → NoneDue cur i l
    → NoneDue cur (suc i) (change_at mark_fired i l)
NoneDue-marked cur i l st h quiet j st' lt e = elim (Bool-cases (i == j)) [
  | inl k ↦
      let same : j ≡ i = ground arith in
      let here : get_elem? (change_at mark_fired i l) i ≡ some st' =
        subst (λ n. get_elem? (change_at mark_fired i l) n ≡ some st') same e in
      let fired : st' ≡ mark_fired st = ground (arith, get-change_at mark_fired i l st h) in
      subst (λ s. is_due cur s ≡ false) (sym fired) refl
  | inr k ↦
      quiet j st' (ground arith)
        (sym (get_other-change_at mark_fired i j l (λ q. ground arith)) ∙ e)
]

pub NoneDue-calmed :
    (cur n : ℕ) (l l' : List SyncTimer) → IsCalmed cur l l' → NoneDue cur n l → NoneDue cur n l'
NoneDue-calmed cur n l l' c quiet j st lt e = elim (Bool-cases (is_due cur st)) [
  | inl d ↦ let (st', e', d') = c.no_new j st e d in ground (arith, quiet j st' lt e')
  | inr d ↦ d
]

pub NoneDue-next :
    (cur i : ℕ) (l : List SyncTimer) (st : SyncTimer)
    → get_elem? l i ≡ some st
    → is_due cur st ≡ false
    → NoneDue cur i l
    → NoneDue cur (suc i) l
NoneDue-next cur i l st h d quiet j st' lt e = elim (Bool-cases (i == j)) [
  | inl k ↦
      let same : j ≡ i = ground arith in
      let here : get_elem? l i ≡ some st' = subst (λ n. get_elem? l n ≡ some st') same e in
      let it : st' ≡ st = ground arith in subst (λ s. is_due cur s ≡ false) (sym it) d
  | inr k ↦ quiet j st' (ground arith) e
]
