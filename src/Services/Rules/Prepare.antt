-- ===== src/Services/Rules/Prepare.antt =====
-- When the preparation of the rules succeeds, and what validation promises to it.
use stint.Prelude.{
  ℕ, ◌<◌, ◌≡◌, inl, inr, refl, ap, ◌∙◌, false, Option, none, some, List, [], ◌∷◌, map, arith,
  if◌then◌else◌, Bool-cases, Option-cases, sum_by,
}
use stint.Prelude.Text.{Str}
use stint.Prelude.Sort.{IsSort, Ascending, sum_by-perm}
use stint.Pricing.Normalize.{Strings}
use stint.Services.Heartbeat.{Heartbeat}
use stint.Services.Rules.{
  CustomRule, Prepared, Regexp, normalize_custom_rule_operation, takes_regex, check_regex,
  check_rule, check_rules, validate_custom_rules, with_first, prepare_loop, prepare_custom_rules,
  apply_custom_rules,
}

Ascending-map :
    {A B : Type 0} (key : B → ℕ) (f : A → B) (low : ℕ) (xs : List A)
    → Ascending key low (map f xs)
    → Ascending (λ x. key (f x)) low xs
Ascending-map key f low [] h = tt
Ascending-map key f low (x ∷ xs) (h, rest) = (h, Ascending-map key f (key (f x)) xs rest)

module _ (st : Strings) (compile : Str → Option Regexp) where
  -- 1 for a rule whose operation takes a regular expression that does not compile.
  abbrev pub broken : CustomRule → ℕ
  broken r =
      if takes_regex (normalize_custom_rule_operation st r.operation)
      then (elim (compile r.source_value) [ none ↦ 1 | some _ ↦ 0 ])
      else 0

  -- Each rule that takes a regular expression has one.
  abbrev pub HasRegex : List Prepared → Type 0
  HasRegex [] = Unit {0}
  HasRegex (p ∷ ps) =
      ((p.operation ≡ normalize_custom_rule_operation st p.rule.operation)
        × (p.regex ≡ (if takes_regex p.operation then compile p.rule.source_value else none)))
      × HasRegex ps

  -- What preparing `rs` gives.
  abbrev pub Gives : List CustomRule → List Prepared → Type 0
  Gives rs ps = (prepare_loop st compile rs ≡ some ps) × (map (λ p. p.rule) ps ≡ rs) × HasRegex ps

  prepare_loop-step :
      (r : CustomRule) (rs : List CustomRule) (ps : List Prepared)
      → broken r ≡ 0
      → Gives rs ps
      → (qs : List Prepared) × Gives (r ∷ rs) qs
  unfolding prepare_loop with_first
  prepare_loop-step r rs ps sound (e, same, has) =
      let operation = normalize_custom_rule_operation st r.operation in
      elim (Bool-cases (takes_regex operation)) [
        | inl t ↦ elim (Option-cases (compile r.source_value)) [
          | inl c ↦ absurd (ground (arith, t, c))
          | inr (regex, c) ↦ (
            record { rule = r; operation = operation; regex = some regex } ∷ ps,
            (rw (t, c, e), ap (λ l. r ∷ l) same, ((refl, rw (t, c)), has)),
          )
        ]
        | inr t ↦ (
          record { rule = r; operation = operation; regex = none } ∷ ps,
          (rw (t, e), ap (λ l. r ∷ l) same, ((refl, rw t), has)),
        )
      ]

  prepare_loop-some :
      (rs : List CustomRule) → sum_by broken rs ≡ 0 → (ps : List Prepared) × Gives rs ps
  unfolding prepare_loop
  prepare_loop-some [] h = ([], (refl, refl, tt))
  prepare_loop-some (r ∷ rs) h =
      let (ps, gives) = prepare_loop-some rs (omega arith) in
      prepare_loop-step r rs ps (omega arith) gives

  prepare_loop-none :
      (rs : List CustomRule) → 0 < sum_by broken rs → prepare_loop st compile rs ≡ none
  unfolding prepare_loop with_first
  prepare_loop-none [] h = absurd (omega arith)
  prepare_loop-none (r ∷ rs) h = ground (arith, prepare_loop-none rs)

  -- A rule that passes its check has a regular expression that compiles, if it needs one.
  check_rule-broken : (r : CustomRule) → check_rule st compile r ≡ none → broken r ≡ 0
  unfolding check_rule check_regex
  check_rule-broken r h = ground arith

  check_rules-broken :
      (rs : List CustomRule) → check_rules st compile rs ≡ none → sum_by broken rs ≡ 0
  unfolding check_rules
  check_rules-broken [] h = refl
  check_rules-broken (r ∷ rs) h = ground (arith, check_rule-broken r, check_rules-broken rs)

  module _ (sort : List CustomRule → List CustomRule) (sorts : IsSort (λ r. r.priority) sort) where
    broken-sort : (rules : List CustomRule) → sum_by broken (sort rules) ≡ sum_by broken rules
    broken-sort rules = sum_by-perm broken (sorts.permutes rules)

    -- Let `sort` sort by priority. Rules that validation accepts are prepared, all of them, in
    -- ascending order of priority, and exactly those that need a regular expression hold the one that
    -- their source value compiles to.
    pub validate-prepare_custom_rules :
        (rules : List CustomRule)
        → validate_custom_rules st compile rules ≡ none
        → (ps : List Prepared) × (prepare_custom_rules st compile sort rules ≡ some ps)
          × (map (λ p. p.rule) ps ≡ sort rules)
          × Ascending (λ p. p.rule.priority) 0 ps
          × HasRegex ps
    unfolding validate_custom_rules prepare_custom_rules
    validate-prepare_custom_rules rules h =
        let sound = check_rules-broken rules (ground arith) in
        let (ps, (e, same, has)) = prepare_loop-some (sort rules) (broken-sort rules ∙ sound) in
        let sorted : Ascending (λ r. r.priority) 0 (map (λ p. p.rule) ps) =
          rw same (sorts.sorted rules) in
        (ps, e, same, Ascending-map (λ r. r.priority) (λ p. p.rule) 0 ps sorted, has)

    -- Let `sort` permute its argument. If the regular expression of any rule does not compile, no rule
    -- is applied, of whatever priority: the heartbeat is kept as it is.
    pub apply_custom_rules-broken :
        (rules : List CustomRule) (h : Heartbeat)
        → 0 < sum_by broken rules
        → apply_custom_rules st compile sort h rules ≡ (h, false)
    unfolding apply_custom_rules prepare_custom_rules
    apply_custom_rules-broken rules h b =
        rw (apply_custom_rules, prepare_loop-none (sort rules) (omega (arith, broken-sort rules)))
