-- ===== src/Timer/Keys.antt =====
-- src/core/sync_timer.c: the timers as a set with one timer for each call-back and id.
use usp_agent_stomp.Common.{
  ℕ, zero, suc, ◌+◌, ◌<◌, ◌≡◌, refl, ◌∙◌, ◌⊎◌, inl, inr, Bool, true, false, ◌&&◌, ◌||◌, Option,
  none, some, List, [], ◌∷◌, ◌++◌, arith, ◌==◌, if◌then◌else◌, Bool-cases, take, drop, All,
}
use usp_agent_stomp.Timer.{int_max, SyncTimer, Timers, is_timer, find_loop, first_loop, change_at}

unfoldable pub has_timer : ℕ → ℕ → List SyncTimer → Bool
has_timer timer_cb id [] = false
has_timer timer_cb id (st ∷ vector) = is_timer timer_cb id st || has_timer timer_cb id vector

abbrev pub Distinct : List SyncTimer → Type 0
Distinct [] = Unit
Distinct (st ∷ vector) = (has_timer st.timer_cb st.id vector ≡ false) × Distinct vector

abbrev pub IsCalled : SyncTimer → Type 0
IsCalled st = 0 < st.timer_cb

-- There is one timer for each call-back and id, each with a call-back, and the time at which the
-- next one fires is up to date.
pub record IsTimers (ts : Timers) : Type 0 where
  pub distinct : Distinct ts.vector
  pub called : All IsCalled ts.vector
  pub first : ts.first_sync_timer_time ≡ first_loop ts.vector int_max

-- The timer of a call-back and id.
unfoldable pub lookup : ℕ → ℕ → List SyncTimer → Option SyncTimer
lookup timer_cb id [] = none
lookup timer_cb id (st ∷ vector) =
    if is_timer timer_cb id st then some st else lookup timer_cb id vector

-- The timers with that one changed, and without it.
pub replaced : (SyncTimer → SyncTimer) → ℕ → ℕ → List SyncTimer → List SyncTimer
replaced f cb id [] = []
replaced f cb id (st ∷ l) = if is_timer cb id st then f st ∷ l else st ∷ replaced f cb id l

pub without : ℕ → ℕ → List SyncTimer → List SyncTimer
without cb id [] = []
without cb id (st ∷ l) = if is_timer cb id st then l else st ∷ without cb id l

-- The index at which a timer is found.
pub record Found (cb id : ℕ) (l : List SyncTimer) (j : ℕ) : Type 0 where
  pub change : (f : SyncTimer → SyncTimer) → change_at f j l ≡ replaced f cb id l
  pub remove : take j l ++ drop (suc j) l ≡ without cb id l

Found-here :
    (cb id : ℕ) (st : SyncTimer) (l : List SyncTimer)
    → is_timer cb id st ≡ true
    → Found cb id (st ∷ l) 0
unfolding change_at replaced without
Found-here cb id st l e = record { change = λ f. ground arith; remove = ground arith }

Found-behind :
    (cb id : ℕ) (st : SyncTimer) (l : List SyncTimer) (j : ℕ)
    → is_timer cb id st ≡ false
    → Found cb id l j
    → Found cb id (st ∷ l) (suc j)
unfolding change_at replaced without
Found-behind cb id st l j e h = record {
  change = λ f. ground (arith, h.change f);
  remove = ground (arith, h.remove);
}

pub find_loop-Found :
    (cb id : ℕ) (l : List SyncTimer) (i : ℕ)
    → ((find_loop cb id l i ≡ none) × (has_timer cb id l ≡ false))
      ⊎ ((j : ℕ) × (find_loop cb id l i ≡ some (j + i))
          × Found cb id l j
          × (has_timer cb id l ≡ true))
unfolding find_loop has_timer
find_loop-Found cb id [] i = inl (refl, refl)
find_loop-Found cb id (st ∷ l) i = elim (Bool-cases (is_timer cb id st)) [
  | inl e ↦ inr (0, ground arith, Found-here cb id st l e, ground arith)
  | inr e ↦ elim (find_loop-Found cb id l (suc i)) [
    | inl h ↦ inl (ground arith)
    | inr (j, f, g, h) ↦ inr (suc j, ground (arith, f), Found-behind cb id st l j e g, ground arith)
  ]
]

-- The changes keep the timers apart.
has-snoc :
    (c j : ℕ) (l : List SyncTimer) (st : SyncTimer)
    → has_timer c j (l ++ st ∷ []) ≡ (has_timer c j l || is_timer c j st)
unfolding has_timer
has-snoc c j [] st = ground arith
has-snoc c j (x ∷ l) st = ground (arith, has-snoc c j l st)

pub Distinct-snoc :
    (l : List SyncTimer) (st : SyncTimer)
    → has_timer st.timer_cb st.id l ≡ false
    → Distinct l
    → Distinct (l ++ st ∷ [])
unfolding has_timer
Distinct-snoc [] st h d = (refl, tt)
Distinct-snoc (x ∷ l) st h (n, d) =
    (ground (arith, has-snoc x.timer_cb x.id l st), Distinct-snoc l st (ground arith) d)

pub has-change_at :
    (f : SyncTimer → SyncTimer) (i c j : ℕ) (l : List SyncTimer)
    → ((st : SyncTimer) → is_timer c j (f st) ≡ is_timer c j st)
    → has_timer c j (change_at f i l) ≡ has_timer c j l
unfolding has_timer change_at
has-change_at f i c j [] k = refl
has-change_at f zero c j (x ∷ l) k = ground (arith, k x)
has-change_at f (suc i) c j (x ∷ l) k = ground (arith, has-change_at f i c j l k)

-- A change that keeps the call-back and the id.
abbrev pub KeepsKey : (SyncTimer → SyncTimer) → Type 0
KeepsKey f = (st : SyncTimer) → ((f st).timer_cb ≡ st.timer_cb) × ((f st).id ≡ st.id)

pub Distinct-change_at :
    (f : SyncTimer → SyncTimer) (i : ℕ) (l : List SyncTimer)
    → KeepsKey f
    → Distinct l
    → Distinct (change_at f i l)
unfolding change_at
Distinct-change_at f i [] k d = tt
Distinct-change_at f zero (x ∷ l) k (n, d) = rw ((k x).0, (k x).1) (n, d)
Distinct-change_at f (suc i) (x ∷ l) k (n, d) = (
  has-change_at f i x.timer_cb x.id l (λ st. rw ((k st).0, (k st).1) refl) ∙ n,
  Distinct-change_at f i l k d,
)

pub All-change_at :
    (f : SyncTimer → SyncTimer) (i : ℕ) (l : List SyncTimer)
    → KeepsKey f
    → All IsCalled l
    → All IsCalled (change_at f i l)
unfolding change_at
All-change_at f i [] k h = tt
All-change_at f zero (x ∷ l) k (n, h) = rw (k x).0 (n, h)
All-change_at f (suc i) (x ∷ l) k (n, h) = (n, All-change_at f i l k h)

has-without :
    (cb id c j : ℕ) (l : List SyncTimer)
    → has_timer c j l ≡ false
    → has_timer c j (without cb id l) ≡ false
unfolding has_timer without
has-without cb id c j [] h = refl
has-without cb id c j (x ∷ l) h = ground (arith, has-without cb id c j l)

pub Distinct-without : (cb id : ℕ) (l : List SyncTimer) → Distinct l → Distinct (without cb id l)
unfolding without
Distinct-without cb id [] d = tt
Distinct-without cb id (x ∷ l) (n, d) = elim (Bool-cases (is_timer cb id x)) [
  | inl e ↦ rw e d
  | inr e ↦ rw e (has-without cb id x.timer_cb x.id l n, Distinct-without cb id l d)
]

pub All-without : (cb id : ℕ) (l : List SyncTimer) → All IsCalled l → All IsCalled (without cb id l)
unfolding without
All-without cb id [] d = tt
All-without cb id (x ∷ l) (n, d) = elim (Bool-cases (is_timer cb id x)) [
  | inl e ↦ rw e d
  | inr e ↦ rw e (n, All-without cb id l d)
]

pub lookup-none : (c j : ℕ) (l : List SyncTimer) → has_timer c j l ≡ false → lookup c j l ≡ none
unfolding lookup has_timer
lookup-none c j [] h = refl
lookup-none c j (x ∷ l) h = ground (arith, lookup-none c j l)

pub lookup-snoc :
    (c j : ℕ) (l : List SyncTimer) (st : SyncTimer)
    → has_timer st.timer_cb st.id l ≡ false
    → lookup c j (l ++ st ∷ []) ≡ (if is_timer c j st then some st else lookup c j l)
unfolding lookup has_timer
lookup-snoc c j [] st h = refl
lookup-snoc c j (x ∷ l) st h = ground (arith, lookup-snoc c j l st)

abbrev pub map_timer : (SyncTimer → SyncTimer) → Option SyncTimer → Option SyncTimer
map_timer f none = none
map_timer f (some st) = some (f st)

pub lookup-replaced :
    (f : SyncTimer → SyncTimer) (cb id c j : ℕ) (l : List SyncTimer)
    → KeepsKey f
    → lookup c j (replaced f cb id l)
      ≡ (if (cb == c) && (id == j) then map_timer f (lookup c j l) else lookup c j l)
unfolding lookup replaced
lookup-replaced f cb id c j [] k = ground arith
lookup-replaced f cb id c j (x ∷ l) k = ground (arith, lookup-replaced f cb id c j l k, k x)

pub lookup-without :
    (cb id c j : ℕ) (l : List SyncTimer)
    → Distinct l
    → lookup c j (without cb id l) ≡ (if (cb == c) && (id == j) then none else lookup c j l)
unfolding lookup without
lookup-without cb id c j [] d = ground arith
lookup-without cb id c j (x ∷ l) (n, d) =
    ground (arith, lookup-without cb id c j l d, lookup-none x.timer_cb x.id l n)
