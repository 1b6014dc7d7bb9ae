-- ===== src/HashTab.antt =====
-- lib/core/hash_tab.c and incl/hash_tab.h: an array of red-black trees, each with a lock. The
-- callback `hash` gives a number that is not negative, as hash_alg.c does. The calls of the lock
-- functions are part of what an operation gives.
mod Slots
mod Laws
mod Tests
use cctrl.Prelude.{
  ℕ, ◌+◌, ◌-◌, ◌%◌, ◌^◌, Bool, true, false, ◌==◌, if◌then◌else◌, Option, none, some, ◌>>=◌,
  Ordering, List, [], ◌∷◌, ◌++◌,
}
use cctrl.RbTree
use cctrl.RbTree.{RbTree, Status, up64, down64}
use cctrl.RbTree.Status.{ok}
use cctrl.RbTree.Delete

-- `lock_e`
pub data LockKind : Type 0 where
  nonlock rdlock wrlock : LockKind

-- `pthread_rwlock_rdlock`, `pthread_rwlock_wrlock` and `pthread_rwlock_unlock` at a slot.
pub data LockCall : Type 0 where
  read write unlock : ℕ → LockCall

-- `_hash_tab_lock`
abbrev pub lock_slot : ℕ → LockKind → List LockCall
lock_slot idx nonlock = []
lock_slot idx rdlock = read idx ∷ []
lock_slot idx wrlock = write idx ∷ []

-- `_hash_tab_unlock`
abbrev pub unlock_slot : ℕ → LockKind → List LockCall
unlock_slot idx nonlock = []
unlock_slot idx rdlock = unlock idx ∷ []
unlock_slot idx wrlock = unlock idx ∷ []

-- `hash_tab_t`, less the callbacks and the locks.
pub record HashTab {ℓ} (A : Type ℓ) : Type ℓ where
  pub len : ℕ
  pub total : ℕ
  pub tree : ℕ → RbTree A

-- `hash_tab_creat`, when all allocations succeed.
pub creat {ℓ} : {A : Type ℓ} → ℕ → HashTab A
creat len = record { len = len; total = 0; tree = λ i. RbTree.creat }

abbrev pub counted : Status → ℕ → ℕ
counted ok n = up64 n
counted _ n = n

module _ {ℓ} {A : Type ℓ} where
  abbrev pub put_tree : (ℕ → RbTree A) → ℕ → RbTree A → ℕ → RbTree A
  put_tree f i t j = if i == j then t else f j

  abbrev pub uncounted : Option A → ℕ → ℕ
  uncounted none n = n
  uncounted (some _) n = down64 n

module _ {ℓ} {A : Type ℓ} (cmp : A → A → Ordering) (hash : A → ℕ) where
  -- The slot of a key.
  abbrev pub slot_of : HashTab A → A → ℕ
  slot_of h k = hash k % h.len

  -- `hash_tab_insert`; the flag says whether the tree gets memory for a node.
  pub insert : Bool → A → LockKind → HashTab A → Option (Status × List LockCall × HashTab A)
  insert mem d lock h =
      let idx = slot_of h d in
      RbTree.insert cmp mem d (h.tree idx) >>= λ r. some (
        r.0,
        lock_slot idx lock ++ unlock_slot idx lock,
        record h { total = counted r.0 h.total; tree = put_tree h.tree idx r.1 },
      )

  -- `hash_tab_query`: when the data are found, the lock stays with the caller.
  pub query : A → LockKind → HashTab A → Option A × List LockCall
  query k lock h =
      let idx = slot_of h k in
      elim (RbTree.query cmp k (h.tree idx)) [
        | none ↦ (none, lock_slot idx lock ++ unlock_slot idx lock)
        | some x ↦ (some x, lock_slot idx lock)
      ]

  -- `hash_tab_unlock`
  pub unlock_key : A → LockKind → HashTab A → List LockCall
  unlock_key k lock h = unlock_slot (slot_of h k) lock

  -- `hash_tab_delete`: the data, or `none` for NULL.
  pub delete : A → LockKind → HashTab A → Option (Option A × List LockCall × HashTab A)
  delete k lock h =
      let idx = slot_of h k in
      RbTree.Delete.delete cmp k (h.tree idx) >>= λ r. some (
        r.0,
        lock_slot idx lock ++ unlock_slot idx lock,
        record h { total = uncounted r.0 h.total; tree = put_tree h.tree idx r.1 },
      )
