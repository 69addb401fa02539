-- ===== src/Concurrency/Memory/Admission.antt =====
-- The admission test, part by part.
use turtle_chat.Prelude.{◌<◌, ◌≡◌, true, false, arith}
use turtle_chat.Concurrency.Entry.{Entry, Entries}
use turtle_chat.Concurrency.Memory.{active_total, memory_active, can_admit, has_earlier_rival}

pub record Admissible (e : Entry) (d : Entries) : Type 0 where
  pub no_rival : has_earlier_rival e d ≡ false
  pub user : memory_active (λ x. x.user_id) e.user_id d < e.limits.user
  pub group : memory_active (λ x. x.group_id) e.group_id d < e.limits.group
  pub account_pool :
      memory_active (λ x. x.account_pool_id) e.account_pool_id d < e.limits.account_pool
  pub provider : memory_active (λ x. x.provider) e.provider d < e.limits.provider
  pub global : active_total d < e.limits.global

pub can_admit-Admissible : (e : Entry) (d : Entries) → can_admit e d ≡ true → Admissible e d
unfolding can_admit
can_admit-Admissible e d h = record {
  no_rival = ground arith;
  user = ground arith;
  group = ground arith;
  account_pool = ground arith;
  provider = ground arith;
  global = ground arith;
}

pub Admissible-can_admit : (e : Entry) (d : Entries) → Admissible e d → can_admit e d ≡ true
unfolding can_admit
Admissible-can_admit e d h = ground arith
