-- ===== src/SubsRetry/Unique.antt =====
-- src/core/subs_retry.c: SUBS_RETRY_Add keeps one entry for each subscription and differentiator.
use usp_agent_stomp.Common.{
  ℕ, zero, suc, ◌+◌, ◌≡◌, refl, ap, ◌∙◌, subst, ◌⊎◌, inl, inr, Bool, true, false, ◌&&◌, Option,
  none, some, List, [], ◌∷◌, ◌++◌, arith, ◌==◌, if◌then◌else◌, Bool-cases, length, get_elem?, set,
  All, All-append, str_eq, str_eq_iff,
}
use usp_agent_stomp.Result.{ok, Returns}
use usp_agent_stomp.SubsRetry.{
  Retry, Subs, RetryEnv, retry_wait_calculate, calc_next_subs_retry_time, update_first_retry_time,
  same_differentiator, find_retry_entry,
}
use usp_agent_stomp.SubsRetry.Calls.{Message, entry_of, timed, subs_retry_add}
use usp_agent_stomp.Timer.{Timers}

abbrev pub diff_covers : Option (List ℕ) → Option (List ℕ) → Bool
diff_covers none d' = true
diff_covers (some d) none = false
diff_covers (some d) (some d') = str_eq d d'

-- The entry is the one that a message of the instance and differentiator replaces.
abbrev pub covers : ℕ → Option (List ℕ) → Retry → Bool
covers instance differentiator sr =
    (sr.instance == instance) && diff_covers sr.differentiator differentiator

-- No entry is one that a later entry would have replaced.
abbrev pub IsUnique : List Retry → Type 0
IsUnique [] = Unit
IsUnique (sr ∷ l) = All (λ y. covers y.instance y.differentiator sr ≡ false) l × IsUnique l

-- The entries of the message's instance have differentiators only if the message has one.
abbrev pub Fits : Message → List Retry → Type 0
Fits m l =
    All
      (λ sr.
        sr.instance ≡ m.instance
        → (sr.differentiator ≡ none) ⊎ ((d : List ℕ) × (m.differentiator ≡ some d)))
      l

-- Where the entry to replace stands.
record IsAt (m : Message) (l : List Retry) (j : ℕ) : Type 0 where
  before : List Retry
  old : Retry
  after : List Retry
  split : l ≡ before ++ old ∷ after
  index : length before ≡ j
  apart : All (λ sr. covers m.instance m.differentiator sr ≡ false) before
  covered : covers m.instance m.differentiator old ≡ true

same_covers :
    (d d' : Option (List ℕ))
    → (d ≡ none) ⊎ ((e : List ℕ) × (d' ≡ some e))
    → same_differentiator d d' ≡ ok (diff_covers d d')
unfolding same_differentiator
same_covers none d' h = refl
same_covers (some d) none h = absurd (no_way h)
  where
    no_way :
        (Path (Option (List ℕ)) (some d) none)
          ⊎ ((e : List ℕ) × (Path (Option (List ℕ)) none (some e)))
        → ⊥
    no_way (inl e) = cc
    no_way (inr (x, e)) = cc
same_covers (some d) (some d') h = refl

nothing_there : (m : Message) (i : ℕ) → find_retry_entry m.instance m.differentiator [] i ≡ ok none
unfolding find_retry_entry
nothing_there m i = refl

-- The round of the search, by what it compares.
find_entry-step :
    (m : Message) (sr : Retry) (l : List Retry) (i : ℕ) (b : Bool)
    → Fits m (sr ∷ l)
    → covers m.instance m.differentiator sr ≡ b
    → find_retry_entry m.instance m.differentiator (sr ∷ l) i
      ≡ (if b then ok (some i) else find_retry_entry m.instance m.differentiator l (suc i))
unfolding find_retry_entry
find_entry-step m sr l i b (f, fs) e = elim (Bool-cases (sr.instance == m.instance)) [
  | inl k ↦
      let same : diff_covers sr.differentiator m.differentiator ≡ b = ground arith in
      rw (k, same_covers sr.differentiator m.differentiator (f (ground arith)), same) refl
  | inr k ↦ let no : b ≡ false = ground arith in rw (k, no) refl
]

IsAt-here :
    (m : Message) (sr : Retry) (l : List Retry)
    → covers m.instance m.differentiator sr ≡ true
    → IsAt m (sr ∷ l) 0
IsAt-here m sr l e = record {
  before = [];
  old = sr;
  after = l;
  split = refl;
  index = refl;
  apart = tt;
  covered = e;
}

IsAt-behind :
    (m : Message) (sr : Retry) (l : List Retry) (j : ℕ)
    → covers m.instance m.differentiator sr ≡ false
    → IsAt m l j
    → IsAt m (sr ∷ l) (suc j)
IsAt-behind m sr l j e h = record {
  before = sr ∷ h.before;
  old = h.old;
  after = h.after;
  split = ap (◌∷◌ sr) h.split;
  index = ap suc h.index;
  apart = (e, h.apart);
  covered = h.covered;
}

-- The search ends: the entry is found, or there is none.
find_entry-cases :
    (m : Message) (l : List Retry) (i : ℕ)
    → Fits m l
    → ((find_retry_entry m.instance m.differentiator l i ≡ ok none)
        × All (λ sr. covers m.instance m.differentiator sr ≡ false) l)
      ⊎ ((j : ℕ) × (find_retry_entry m.instance m.differentiator l i ≡ ok (some (j + i)))
          × IsAt m l j)
find_entry-cases m [] i f = inl (nothing_there m i, tt)
find_entry-cases m (sr ∷ l) i (f, fs) = elim (Bool-cases (covers m.instance m.differentiator sr)) [
  | inl e ↦ inr (0, find_entry-step m sr l i true (f, fs) e ∙ ground arith, IsAt-here m sr l e)
  | inr e ↦ elim (find_entry-cases m l (suc i) fs) [
    | inl (g, a) ↦ inl (find_entry-step m sr l i false (f, fs) e ∙ g, (e, a))
    | inr (j, g, a) ↦ inr (
      suc j,
      find_entry-step m sr l i false (f, fs) e ∙ g ∙ ground arith,
      IsAt-behind m sr l j e a,
    )
  ]
]

set-append :
    (xs : List Retry) (x y : Retry) (ys : List Retry) (j : ℕ)
    → length xs ≡ j
    → set (xs ++ x ∷ ys) j y ≡ xs ++ y ∷ ys
set-append [] x y ys zero e = refl
set-append [] x y ys (suc j) e = ground arith
set-append (z ∷ xs) x y ys zero e = ground arith
set-append (z ∷ xs) x y ys (suc j) e = ap (◌∷◌ z) (set-append xs x y ys j (ground arith))

-- A new entry of the message's instance and differentiator.
abbrev IsOf : Message → Retry → Type 0
IsOf m sr = (sr.instance ≡ m.instance) × (sr.differentiator ≡ m.differentiator)

IsUnique-snoc :
    (m : Message) (l : List Retry) (new : Retry)
    → IsOf m new
    → All (λ sr. covers m.instance m.differentiator sr ≡ false) l
    → IsUnique l
    → IsUnique (l ++ new ∷ [])
IsUnique-snoc m [] new o a u = (tt, tt)
IsUnique-snoc m (x ∷ l) new o (e, a) (h, u) = (
  All-append (λ y. covers y.instance y.differentiator x ≡ false) l (new ∷ []) h
      (rw (o.0, o.1) e, tt),
  IsUnique-snoc m l new o a u,
)

diff_covers_mono :
    (d d' e : Option (List ℕ))
    → diff_covers d d' ≡ true
    → diff_covers d e ≡ false
    → diff_covers d' e ≡ false
diff_covers_mono none d' e c h = cc
diff_covers_mono (some d) none e c h = cc
diff_covers_mono (some d) (some d') e c h =
    subst (λ x. diff_covers (some x) e ≡ false) ((str_eq_iff d d').0 c) h

-- What an entry that is covered would replace, the entry that replaces it would too.
covers_mono :
    (m : Message) (old new y : Retry)
    → IsOf m new
    → covers m.instance m.differentiator old ≡ true
    → covers y.instance y.differentiator old ≡ false
    → covers y.instance y.differentiator new ≡ false
covers_mono m old new y o c h =
    rw (o.0, o.1)
      (elim (Bool-cases (m.instance == y.instance)) [
        | inl k ↦ rw k (
            diff_covers_mono old.differentiator m.differentiator y.differentiator (ground arith)
              (ground arith))
        | inr k ↦ rw k refl
      ])

IsUnique-replaced :
    (m : Message) (l ys : List Retry) (old new : Retry)
    → IsOf m new
    → All (λ sr. covers m.instance m.differentiator sr ≡ false) l
    → covers m.instance m.differentiator old ≡ true
    → IsUnique (l ++ old ∷ ys)
    → IsUnique (l ++ new ∷ ys)
IsUnique-replaced m [] ys old new o a c (h, u) = (all_mono ys h, u)
  where
    all_mono :
        (zs : List Retry)
        → All (λ y. covers y.instance y.differentiator old ≡ false) zs
        → All (λ y. covers y.instance y.differentiator new ≡ false) zs
    all_mono [] k = tt
    all_mono (z ∷ zs) (k, ks) = (covers_mono m old new z o c k, all_mono zs ks)
IsUnique-replaced m (x ∷ l) ys old new o (e, a) c (h, u) =
    (swapped l h, IsUnique-replaced m l ys old new o a c u)
  where
    swapped :
        (zs : List Retry)
        → All (λ y. covers y.instance y.differentiator x ≡ false) (zs ++ old ∷ ys)
        → All (λ y. covers y.instance y.differentiator x ≡ false) (zs ++ new ∷ ys)
    swapped [] (k, ks) = (rw (o.0, o.1) e, ks)
    swapped (z ∷ zs) (k, ks) = (k, swapped zs ks)

-- One entry for each, the message among them with its first retry after the wait that
-- RETRY_WAIT_Calculate gives, and each entry that the message does not replace where it was.
pub record IsStored (env : RetryEnv) (cur_time : ℕ) (m : Message) (params : ℕ × ℕ) (s : Subs)
    (r : Timers × Subs) : Type 0 where
  pub unique : IsUnique r.1.vector
  pub index : ℕ
  pub entry : Retry
  pub there : get_elem? r.1.vector index ≡ some entry
  pub same : entry ≡ record (entry_of m params) {
    next_retry_time = cur_time + (retry_wait_calculate env 1 params.0 params.1 s.seed).0;
  }
  pub kept :
      (i : ℕ) (sr : Retry)
      → get_elem? s.vector i ≡ some sr
      → covers m.instance m.differentiator sr ≡ false
      → get_elem? r.1.vector i ≡ some sr

get-middle :
    (xs : List Retry) (x : Retry) (ys : List Retry) → get_elem? (xs ++ x ∷ ys) (length xs) ≡ some x
get-middle [] x ys = refl
get-middle (y ∷ xs) x ys = get-middle xs x ys

get-append :
    (xs ys : List Retry) (i : ℕ) (sr : Retry)
    → get_elem? xs i ≡ some sr
    → get_elem? (xs ++ ys) i ≡ some sr
get-append [] ys i sr h = cc
get-append (x ∷ xs) ys zero sr h = h
get-append (x ∷ xs) ys (suc i) sr h = get-append xs ys i sr h

get-replaced :
    (m : Message) (xs ys : List Retry) (old new : Retry) (i : ℕ) (sr : Retry)
    → covers m.instance m.differentiator old ≡ true
    → get_elem? (xs ++ old ∷ ys) i ≡ some sr
    → covers m.instance m.differentiator sr ≡ false
    → get_elem? (xs ++ new ∷ ys) i ≡ some sr
get-replaced m [] ys old new zero sr c h k =
    let same : old ≡ sr = ground arith in
    absurd (true-ne-false _ (subst (λ q. covers m.instance m.differentiator q ≡ true) same c) k)
  where
    true-ne-false : (b : Bool) → b ≡ true → b ≡ false → ⊥
    true-ne-false b e f = cc
get-replaced m [] ys old new (suc i) sr c h k = h
get-replaced m (x ∷ xs) ys old new zero sr c h k = h
get-replaced m (x ∷ xs) ys old new (suc i) sr c h k = get-replaced m xs ys old new i sr c h k

-- SUBS_RETRY_Add, for a controller that is enabled, stores the message with its first retry after
-- the wait that RETRY_WAIT_Calculate gives, leaves the entries that the message does not replace
-- where they are, and keeps one entry for each subscription and differentiator: an entry that the
-- message replaces is gone. The entries of the subscription have differentiators only if the
-- message has one, so that strcmp is never given NULL.
pub subs_retry_add_lem :
    (env : RetryEnv) (cur_time : ℕ) (m : Message) (ts : Timers) (s : Subs) (params : ℕ × ℕ)
    → env.get_subs_retry_params m.dest_endpoint ≡ some params
    → Fits m s.vector
    → IsUnique s.vector
    → Returns (IsStored env cur_time m params s) (subs_retry_add env cur_time m (ts, s))
unfolding subs_retry_add update_first_retry_time calc_next_subs_retry_time
subs_retry_add_lem env cur m ts s params e f u =
    let new = timed env cur (entry_of m params) s.seed in
    elim (find_entry-cases m s.vector 0 f) [
      | inl (g, a) ↦
          rw (subs_retry_add, e, g)
            (record {
              unique = IsUnique-snoc m s.vector new (refl, refl) a u;
              index = length s.vector;
              entry = new;
              there = get-middle s.vector new [];
              same = refl;
              kept = λ i sr there k. get-append s.vector (new ∷ []) i sr there;
            })
      | inr (j, g, a) ↦
          let v : set s.vector (j + 0) new ≡ a.before ++ new ∷ a.after =
            ap (λ l. set l (j + 0) new) a.split
            ∙ set-append a.before a.old new a.after (j + 0) (ground (arith, a.index)) in
          rw (subs_retry_add, e, g, v)
            (record {
              unique =
                  IsUnique-replaced m a.before a.after a.old new (refl, refl) a.apart a.covered
                    (subst IsUnique a.split u);
              index = length a.before;
              entry = new;
              there = get-middle a.before new a.after;
              same = refl;
              kept = λ i sr there k.
                  get-replaced m a.before a.after a.old new i sr a.covered
                    (subst (λ l. get_elem? l i ≡ some sr) a.split there) k;
            })
    ]
