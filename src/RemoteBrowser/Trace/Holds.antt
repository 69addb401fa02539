-- ===== src/RemoteBrowser/Trace/Holds.antt =====
-- Properties of a store's content, under the file's lock
-- (src/chatgpt_web_gateway/remote_browser_sessions.py).
use turtle_chat.Prelude.{ℕ, ◌≡◌, refl, Bool, Option, none, some, string_eq}
use turtle_chat.RemoteBrowser.Sessions.{
  Entry, Payload, empty_store, File, missing, invalid, stored, is_live, keep_both, prune,
  load_store, locked_with, locked_store, write_back,
}

-- A property of what a file holds, which the loss of entries keeps.
module _ (P : Payload → Type 0) where
  abbrev pub Holds : File → Type 0
  Holds missing = P empty_store
  Holds invalid = Unit
  Holds (stored payload) = P payload

  abbrev pub IsLasting : Type 0
  IsLasting = (p : Entry → Bool) (payload : Payload) → P payload → P (keep_both p payload)

  pub write_back-Holds :
      {A : Type 0} (file : File) (r : Payload × Option A)
      → Holds file
      → P r.0
      → Holds (write_back file r).0
  write_back-Holds file (payload, none) h k = h
  write_back-Holds file (payload, some a) h k = k

  pub locked_store-Holds :
      {A : Type 0} (file : File) (clock : ℕ) (body : Payload → Payload × Option A)
      → IsLasting
      → ((payload : Payload) → P payload → P (body payload).0)
      → Holds file
      → Holds (locked_store file clock body).0
  locked_store-Holds missing clock body l b h =
      write_back-Holds missing (body (prune empty_store clock)) h
        (b (prune empty_store clock) (l (is_live clock) empty_store h))
  locked_store-Holds invalid clock body l b h = tt
  locked_store-Holds (stored payload) clock body l b h =
      write_back-Holds (stored payload) (body (prune payload clock)) h
        (b (prune payload clock) (l (is_live clock) payload h))

  -- A call that returns has written what its body made.
  pub locked_store-written :
      {A : Type 0} (file : File) (clock : ℕ) (body : Payload → Payload × Option A) (a : A)
      → ((payload : Payload) → P (body payload).0)
      → (locked_store file clock body).1 ≡ some a
      → Holds (locked_store file clock body).0
  locked_store-written {A = A} file clock body a b = loaded (load_store file)
    where
      wrote :
          (r : Payload × Option A)
          → P r.0
          → (write_back file r).1 ≡ some a
          → Holds (write_back file r).0
      wrote (payload, none) k e = cc
      wrote (payload, some x) k e = k

      loaded :
          (o : Option Payload)
          → (locked_with file clock body o).1 ≡ some a
          → Holds (locked_with file clock body o).0
      loaded none e = cc
      loaded (some payload) e = wrote (body (prune payload clock)) (b (prune payload clock)) e

  -- What a body returns where the property holds, its call returns.
  pub locked_store-returns :
      {A : Type 0} (Q : Option A → Type 0) (file : File) (clock : ℕ)
      (body : Payload → Payload × Option A)
      → IsLasting
      → Q none
      → ((payload : Payload) → P payload → Q (body payload).1)
      → Holds file
      → Q (locked_store file clock body).1
  locked_store-returns {A = A} Q file clock body l q b h = loaded file h
    where
      returned : (f : File) (r : Payload × Option A) → Q r.1 → Q (write_back f r).1
      returned f (payload, none) k = k
      returned f (payload, some x) k = k

      loaded : (f : File) → Holds f → Q (locked_with file clock body (load_store f)).1
      loaded missing k =
          returned file (body (prune empty_store clock))
            (b (prune empty_store clock) (l (is_live clock) empty_store k))
      loaded invalid k = q
      loaded (stored payload) k =
          returned file (body (prune payload clock))
            (b (prune payload clock) (l (is_live clock) payload k))

  -- A call whose body raises where the property holds.
  pub locked_store-raises :
      {A : Type 0} (file : File) (clock : ℕ) (body : Payload → Payload × Option A)
      → IsLasting
      → ((payload : Payload) → P payload → (body payload).1 ≡ none)
      → Holds file
      → (locked_store file clock body).1 ≡ none
  locked_store-raises file clock body l b h =
      locked_store-returns (λ o. o ≡ none) file clock body l refl b h
