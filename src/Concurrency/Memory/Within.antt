-- ===== src/Concurrency/Memory/Within.antt =====
-- The ceilings as a property of the entries, and a round of the waiting loop
-- (branding/open-webui/turtle_chat/concurrency.py).
use turtle_chat.Prelude.{
  ℕ, ◌≤◌, ◌≡◌, refl, sym, String, Option, none, some, arith, string_eq, inl, inr, Bool-cases, leb,
}
use mathlib.Core.Path.{subst₂}
use turtle_chat.Dict.{get}
use turtle_chat.Dict.Items.{AllItems, AllItems-get}
use turtle_chat.Concurrency.Entry.{Environment, Entry, Entries, Coordinator, provider_limit}
use turtle_chat.Concurrency.Limits.{Resolved, refresh_dynamic_limits}
use turtle_chat.Concurrency.Memory.{
  active_total, memory_active, memory_cleanup, decide, can_admit, attempt, Clock, write,
}
use turtle_chat.Concurrency.Memory.Ceilings.{
  IsCapped, Capped, refresh_caps, cleanup-Capped, put-Capped, attempt-total, attempt-families,
}

-- The entries respect the ceilings, and so does every entry by itself.
pub record Within (env : Environment) (global : ℕ) (d : Entries) : Type 0 where
  pub total : active_total d ≤ global
  pub families :
      (provider : String) → memory_active (λ e. e.provider) provider d ≤ provider_limit env provider
  pub capped : AllItems (IsCapped env global) d

abbrev pub WithinCeilings : Coordinator → Type 0
WithinCeilings c = Within c.env c.global_limit c.memory_entries

decide-Capped :
    (c : Coordinator) (e : Entry) (clock : Clock)
    → e.limits.provider ≤ provider_limit c.env e.provider
    → e.limits.global ≤ c.global_limit
    → Capped c
    → AllItems (IsCapped c.env c.global_limit) (decide c e clock).0.memory_entries
unfolding decide
decide-Capped c e clock h g a = elim (Bool-cases (can_admit e c.memory_entries)) [
  | inl y ↦ rw y (put-Capped c _ h g a)
  | inr n ↦ rw n (elim (Bool-cases (leb clock.deadline clock.monotonic)) [
    | inl y ↦ rw y (put-Capped c _ h g a)
    | inr n ↦ rw n a
  ])
]

decide_settings :
    (c : Coordinator) (e : Entry) (clock : Clock)
    → ((decide c e clock).0.env ≡ c.env) × ((decide c e clock).0.global_limit ≡ c.global_limit)
unfolding decide
decide_settings c e clock = (ground arith, ground arith)

pub attempt_settings :
    (c : Coordinator) (e : Entry) (r : Option Resolved) (clock : Clock)
    → ((attempt c e r clock).0.env ≡ c.env)
      × ((attempt c e r clock).0.global_limit ≡ c.global_limit)
unfolding attempt memory_cleanup
attempt_settings c e none clock = (refl, refl)
attempt_settings c e (some r) clock = decide_settings _ _ clock

attempt-Capped :
    (c : Coordinator) (e : Entry) (r : Resolved) (clock : Clock)
    → IsCapped c.env c.global_limit e.request_id e
    → Capped c
    → AllItems (IsCapped c.env c.global_limit) (attempt c e (some r) clock).0.memory_entries
unfolding attempt memory_cleanup
attempt-Capped c e r clock k a =
    let caps = refresh_caps c e.limits e.provider r k.family k.total in
    let e' : Entry = record e { limits = refresh_dynamic_limits c e.limits e.provider r } in
    decide-Capped (memory_cleanup (write c e') clock.now_ms) e' clock caps.0 caps.1
      (cleanup-Capped (write c e') clock.now_ms (put-Capped c e' caps.0 caps.1 a))

pub attempt-WithinCeilings :
    (c : Coordinator) (e : Entry) (r : Option Resolved) (clock : Clock)
    → get c.memory_entries e.request_id ≡ some e
    → WithinCeilings c
    → WithinCeilings (attempt c e r clock).0
unfolding attempt
attempt-WithinCeilings c e none clock g w = w
attempt-WithinCeilings c e (some r) clock g w =
    let k : IsCapped c.env c.global_limit e.request_id e =
      AllItems-get _ c.memory_entries e.request_id e w.capped g in
    subst₂ (λ v n. Within v n (attempt c e (some r) clock).0.memory_entries)
      (sym (attempt_settings c e (some r) clock).0) (sym (attempt_settings c e (some r) clock).1)
      (record {
        total = attempt-total c e r clock g k w.total;
        families = λ p. attempt-families c e r clock p g k (w.families p);
        capped = attempt-Capped c e r clock k w.capped;
      })
