-- ===== src/Timer/Changes.antt =====
-- src/core/sync_timer.c: adding, reloading and removing timers, as changes of a map from call-backs
-- and ids to timers.
use usp_agent_stomp.Common.{
  ℕ, ◌<◌, ◌≡◌, refl, ap, ◌∙◌, inl, inr, false, ◌&&◌, Option, none, some, List, [], ◌∷◌, arith, ◌==◌,
  if◌then◌else◌, All-append,
}
use usp_agent_stomp.Result.{Returns}
use usp_agent_stomp.Timer.{
  SyncTimer, Timers, find_loop, fresh_timer, sync_timer_add, reload_timer, sync_timer_reload,
  sync_timer_remove,
}
use usp_agent_stomp.Timer.Keys.{
  has_timer, IsCalled, IsTimers, lookup, Found, find_loop-Found, Distinct-snoc, Distinct-change_at,
  All-change_at, Distinct-without, All-without, lookup-none, lookup-snoc, lookup-replaced,
  lookup-without,
}

-- The timers as a map.
abbrev pub Map : Type 0
Map = ℕ → ℕ → Option SyncTimer

abbrev pub timer_at : ℕ → ℕ → Option SyncTimer → Map → Map
timer_at cb id v m c j = if (cb == c) && (id == j) then v else m c j

-- The timers are in order, and as a map they are `m`.
pub record Is (m : Map) (ts : Timers) : Type 0 where
  pub timers : IsTimers ts
  pub same : (c j : ℕ) → lookup c j ts.vector ≡ m c j

free-has : (c j : ℕ) (l : List SyncTimer) → lookup c j l ≡ none → has_timer c j l ≡ false
unfolding lookup has_timer
free-has c j [] h = refl
free-has c j (x ∷ l) h = ground (arith, free-has c j l)

not_found :
    (cb id : ℕ) (l : List SyncTimer) → has_timer cb id l ≡ false → find_loop cb id l 0 ≡ none
not_found cb id l h = elim (find_loop-Found cb id l 0) [
  | inl (e, n) ↦ e
  | inr (j, e, g, k) ↦ ground arith
]

pub found :
    (cb id : ℕ) (l : List SyncTimer)
    → (lookup cb id l ≡ none → ⊥)
    → (j : ℕ) × (find_loop cb id l 0 ≡ some j) × Found cb id l j
found cb id l h = elim (find_loop-Found cb id l 0) [
  | inl (e, n) ↦ absurd (h (lookup-none cb id l n))
  | inr (j, e, g, k) ↦ (j, e ∙ ap some (omega arith), g)
]

-- SYNC_TIMER_Add sets up a timer for a call-back that has none for that id, and changes no other.
pub sync_timer_add_lem :
    (cb id callback_time : ℕ) (m : Map) (ts : Timers)
    → 0 < cb
    → Is m ts
    → m cb id ≡ none
    → Returns
        (Is (timer_at cb id (some (fresh_timer cb id callback_time)) m))
        (sync_timer_add cb id callback_time ts)
unfolding sync_timer_add
sync_timer_add_lem cb id time m ts pos_cb h free =
    let called : (cb == 0) ≡ false = ground arith in
    let st = fresh_timer cb id time in
    let none_there = free-has cb id ts.vector (h.same cb id ∙ free) in
    rw (called, not_found cb id ts.vector none_there)
      (record {
        timers = record {
          distinct = Distinct-snoc ts.vector st none_there h.timers.distinct;
          called = All-append IsCalled ts.vector (st ∷ []) h.timers.called (pos_cb, tt);
          first = refl;
        };
        same = λ c j. lookup-snoc c j ts.vector st none_there ∙ ground (arith, h.same c j);
      })

-- SYNC_TIMER_Reload sets the time of a timer that exists and enables it, and changes no other.
pub sync_timer_reload_lem :
    (cb id callback_time : ℕ) (m : Map) (ts : Timers) (st : SyncTimer)
    → Is m ts
    → m cb id ≡ some st
    → Returns
        (Is (timer_at cb id (some (reload_timer callback_time st)) m))
        (sync_timer_reload cb id callback_time ts)
unfolding sync_timer_reload
sync_timer_reload_lem cb id time m ts st h there =
    let f = reload_timer time in
    let (j, e, g) = found cb id ts.vector (λ n. ground (arith, h.same cb id)) in
    rw (sync_timer_reload, e)
      (record {
        timers = record {
          distinct = Distinct-change_at f j ts.vector (λ s. (refl, refl)) h.timers.distinct;
          called = All-change_at f j ts.vector (λ s. (refl, refl)) h.timers.called;
          first = refl;
        };
        same = λ c i.
            ap (lookup c i) (g.change f)
            ∙ lookup-replaced f cb id c i ts.vector (λ s. (refl, refl))
            ∙ ground (arith, h.same c i, h.same cb id);
      })

-- SYNC_TIMER_Remove takes away a timer that exists, and changes no other.
pub sync_timer_remove_lem :
    (cb id : ℕ) (m : Map) (ts : Timers) (st : SyncTimer)
    → Is m ts
    → m cb id ≡ some st
    → Returns (Is (timer_at cb id none m)) (sync_timer_remove cb id ts)
unfolding sync_timer_remove
sync_timer_remove_lem cb id m ts st h there =
    let (j, e, g) = found cb id ts.vector (λ n. ground (arith, h.same cb id)) in
    rw (sync_timer_remove, e)
      (record {
        timers = record {
          distinct = rw g.remove (Distinct-without cb id ts.vector h.timers.distinct);
          called = rw g.remove (All-without cb id ts.vector h.timers.called);
          first = refl;
        };
        same = λ c i.
            ap (lookup c i) g.remove
            ∙ lookup-without cb id c i ts.vector h.timers.distinct
            ∙ ground (arith, h.same c i);
      })
