-- ===== src/Provider/Status/Exclusive.antt =====
-- How the five questions to a `TransactionStatus` exclude and imply each other.
use mx_sdk_cpp.Common.{
  ◌≡◌, ◌⊎◌, inl, inr, refl, Bool, true, false, ◌&&◌, ◌||◌, codes, bytes_eq, bytes_eq_iff, sym,
}
use mx_sdk_cpp.Provider.Status.{
  TransactionStatus, is_pending, is_invalid, is_successful, is_executed, is_failed,
}

either : (a b : Bool) → (a || b) ≡ true → (a ≡ true) ⊎ (b ≡ true)
either true b h = inl refl
either false b h = inr h

never : (a b : Bool) → (a ≡ true → b ≡ false) → (a && b) ≡ false
never true b h = h refl
never false b h = refl

same_answer :
    (a b c : Bool) → (a ≡ true → b ≡ true → c ≡ true) → (c ≡ true → (a && b) ≡ true) → (a && b) ≡ c
same_answer true true c h k = sym (h refl refl)
same_answer true false true h k = k refl
same_answer true false false h k = refl
same_answer false b true h k = k refl
same_answer false b false h k = refl

module _ (t : TransactionStatus) where
  successful :
      is_successful t ≡ true
      → (is_executed t ≡ true) × (is_failed t ≡ false) × (is_invalid t ≡ false)
  unfolding is_invalid is_successful is_executed is_failed
  successful h = elim (either _ _ h) [
    | inl e ↦ rw ((bytes_eq_iff t.status (codes "success")).0 e) (refl, refl, refl)
    | inr e ↦ rw ((bytes_eq_iff t.status (codes "successful")).0 e) (refl, refl, refl)
  ]

  executed_only : bytes_eq t.status (codes "executed") ≡ true → is_failed t ≡ false
  unfolding is_invalid is_failed
  executed_only e = rw ((bytes_eq_iff t.status (codes "executed")).0 e) refl

  failed_executed : is_executed t ≡ true → is_failed t ≡ true → is_invalid t ≡ true
  unfolding is_executed
  failed_executed h k = elim (either _ _ h) [
    | inl e ↦ let none = executed_only e in absurd cc
    | inr rest ↦ elim (either _ _ rest) [
      | inl e ↦ let none = (successful e).1 in absurd cc
      | inr e ↦ e
    ]
  ]

  pending : is_pending t ≡ true → (is_executed t || is_failed t) ≡ false
  unfolding is_pending is_invalid is_successful is_executed is_failed
  pending h = rw ((bytes_eq_iff t.status (codes "pending")).0 h) refl

  invalid : is_invalid t ≡ true → (is_executed t && is_failed t) ≡ true
  unfolding is_invalid is_successful is_executed is_failed
  invalid h = rw ((bytes_eq_iff t.status (codes "invalid")).0 h) refl

  -- A pending status is neither executed nor failed, a successful one is not failed, and the
  -- statuses that are both executed and failed are the invalid ones.
  pub status_exclusive :
      ((is_pending t && (is_executed t || is_failed t)) ≡ false)
      × ((is_successful t && is_failed t) ≡ false)
      × ((is_executed t && is_failed t) ≡ is_invalid t)
  status_exclusive = (
    never (is_pending t) _ pending,
    never (is_successful t) _ (λ h. (successful h).1),
    same_answer (is_executed t) (is_failed t) (is_invalid t) failed_executed invalid,
  )
