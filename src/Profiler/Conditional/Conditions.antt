-- ===== src/Profiler/Conditional/Conditions.antt =====
-- When the conditions of a profile are met.
use apminsight_server_sdk_go.Prelude.{
  ℕ, ◌≡◌, refl, sym, ◌∙◌, Bool, true, false, ◌&&◌, ◌||◌, List, [], ◌∷◌, Bytes, codes, bytes_eq,
  bytes_eq_other, if◌then◌else◌, Bool-cases, inl, inr, arith,
}
use apminsight_server_sdk_go.Profiler.Task.{TriggerCondition, Profile}
use apminsight_server_sdk_go.Profiler.Conditional.{
  Floats, Readings, to_decimal, meet_condition, check_one, check_from, check_condition,
}

-- The conditions that there are: a key, a comparison, and the reading it looks at.
pub record Row : Type 0 where
  pub key : Bytes
  pub compare : Bytes
  pub value : ℕ

abbrev row : Bytes → Bytes → ℕ → Row
row key compare value = record { key = key; compare = compare; value = value }

abbrev pub rows : Readings → List Row
rows r =
    row (codes "cpu_ratio") (codes "threshold") r.cpu_ratio
    ∷ row (codes "cpu_ratio") (codes "windows") r.cpu_ratio_delta
    ∷ row (codes "mem_ratio") (codes "threshold") r.mem_ratio
    ∷ row (codes "mem_ratio") (codes "windows") r.mem_ratio_delta
    ∷ row (codes "goroutine_num") (codes "threshold") r.go_routine_num
    ∷ row (codes "goroutine_num") (codes "windows") r.go_routine_num_delta
    ∷ []

abbrev pub any {ℓ} : {A : Type ℓ} → (A → Bool) → List A → Bool
any f [] = false
any f (x ∷ xs) = f x || any f xs

differ :
    (bytes_eq (codes "cpu_ratio") (codes "mem_ratio") ≡ false)
    × (bytes_eq (codes "cpu_ratio") (codes "goroutine_num") ≡ false)
    × (bytes_eq (codes "mem_ratio") (codes "goroutine_num") ≡ false)
    × (bytes_eq (codes "threshold") (codes "windows") ≡ false)
unfolding bytes_eq
differ = (refl, refl, refl, refl)

-- The comparison of one key, and the choice of the key, on truth values.
abbrev meets : Bool → Bool → Bool → Bool → Bool → Bool
meets t w o cur delta =
    if t then (if o then cur else false) else if w then (if o then delta else false) else false

meets-eq :
    (t w o cur delta : Bool)
    → (t ≡ true → w ≡ false)
    → meets t w o cur delta ≡ (t && (o && cur)) || (w && (o && delta))
meets-eq t w o cur delta h = ground arith

choose_key :
    (k1 k2 k3 t w o a1 b1 a2 b2 a3 b3 : Bool)
    → (k1 ≡ true → k2 ≡ false)
    → (k1 ≡ true → k3 ≡ false)
    → (k2 ≡ true → k3 ≡ false)
    → (t ≡ true → w ≡ false)
    → (if k1
        then meets t w o a1 b1
        else if k2
        then meets t w o a2 b2
        else if k3
        then meets t w o a3 b3
        else false)
      ≡ (k1 && (t && (o && a1)))
        || ((k1 && (w && (o && b1)))
            || ((k2 && (t && (o && a2)))
                || ((k2 && (w && (o && b2)))
                    || ((k3 && (t && (o && a3))) || ((k3 && (w && (o && b3))) || false)))))
choose_key k1 k2 k3 t w o a1 b1 a2 b2 a3 b3 h12 h13 h23 h = ground arith

module _ (floats : Floats) where
  -- A condition fits a row, its operator is `>`, and the reading is greater than its value.
  abbrev fits : TriggerCondition → Row → Bool
  fits cond w =
      bytes_eq cond.key w.key
      && (bytes_eq cond.compare w.compare
          && (bytes_eq cond.op (codes ">")
              && floats.gt w.value (to_decimal floats cond.value cond.unit)))

  abbrev pub is_met : Readings → TriggerCondition → Bool
  is_met r cond = any (fits cond) (rows r)

  check_one-eq :
      (r : Readings) (cond : TriggerCondition) → check_one floats r false cond ≡ is_met r cond
  unfolding check_one meet_condition
  check_one-eq r cond =
      choose_key (bytes_eq cond.key (codes "cpu_ratio")) (bytes_eq cond.key (codes "mem_ratio"))
        (bytes_eq cond.key (codes "goroutine_num")) (bytes_eq cond.compare (codes "threshold"))
        (bytes_eq cond.compare (codes "windows")) (bytes_eq cond.op (codes ">"))
        (exceeds r.cpu_ratio) (exceeds r.cpu_ratio_delta) (exceeds r.mem_ratio)
        (exceeds r.mem_ratio_delta) (exceeds r.go_routine_num) (exceeds r.go_routine_num_delta)
        (λ h. bytes_eq_other cond.key (codes "cpu_ratio") (codes "mem_ratio") h differ.0)
        (λ h. bytes_eq_other cond.key (codes "cpu_ratio") (codes "goroutine_num") h differ.1)
        (λ h. bytes_eq_other cond.key (codes "mem_ratio") (codes "goroutine_num") h differ.2)
        (λ h. bytes_eq_other cond.compare (codes "threshold") (codes "windows") h differ.3)
    where
      exceeds : ℕ → Bool
      exceeds v = floats.gt v (to_decimal floats cond.value cond.unit)

  check_from-eq :
      (r : Readings) (conds : List TriggerCondition)
      → check_from floats r false conds ≡ any (is_met r) conds
  unfolding check_from
  check_from-eq r [] = refl
  check_from-eq r (cond ∷ conds) = elim (Bool-cases (check_one floats r false cond)) [
    | inl e ↦
        let m : is_met r cond ≡ true = sym (check_one-eq r cond) ∙ e in
        rw (e, check_from) (rw m refl)
    | inr e ↦
        let m : is_met r cond ≡ false = sym (check_one-eq r cond) ∙ e in
        rw (e, check_from) (rw m (check_from-eq r conds))
  ]

  -- The conditions of a profile are met just when one of them fits one of the six readings that are
  -- known, by key and comparison, with the operator `>`, and this reading is greater than the
  -- condition's decimal value. A condition with another key, comparison or operator is never met.
  pub check_condition-any :
      (r : Readings) (p : Profile)
      → check_condition floats r p ≡ any (is_met r) p.trigger_condition_list
  unfolding check_condition
  check_condition-any r p = check_from-eq r p.trigger_condition_list
