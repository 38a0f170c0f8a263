-- ===== src/Services/Rules/Laws.antt =====
-- What reading and writing a field have to do with one another, and what the rules leave alone.
use stint.Prelude.{
  ◌≡◌, ◌≢◌, inl, inr, refl, ◌∙◌, true, false, ◌&&◌, Option, none, some, List, [], ◌∷◌, ◌++◌, arith,
  if◌then◌else◌, Bool-cases, Option-cases,
}
use stint.Prelude.Text.{Str, codes, str_eq, str_eq→eq, str_eq_refl}
use stint.Pricing.Normalize.{Strings}
use stint.Services.Heartbeat.{Heartbeat}
use stint.Services.Rules.{
  Destination, CustomRule, Prepared, prepared_rule_matches, set_all, change_by,
  apply_prepared_custom_rules,
}
use stint.Services.Rules.Fields.{
  Field, entity, entity_type, category, project, branch, language, editor, operating_system,
  name_of, all_fields, field_among, field_of, read, write, is_in, valid_custom_rule_fields,
  normalize_field, heartbeat_field, set_heartbeat_field, valid_custom_rule_field,
}

read-write : (f : Field) (v : Str) (h : Heartbeat) → read (some f) (write (some f) v h) ≡ v
unfolding read write
read-write entity v h = refl
read-write entity_type v h = refl
read-write category v h = refl
read-write project v h = refl
read-write branch v h = refl
read-write language v h = refl
read-write editor v h = refl
read-write operating_system v h = refl

read-write_other :
    (f g : Field) (v : Str) (h : Heartbeat)
    → f ≢ g
    → read (some f) (write (some g) v h) ≡ read (some f) h
unfolding read write
read-write_other entity entity v h ne = absurd (ne refl)
read-write_other entity_type entity_type v h ne = absurd (ne refl)
read-write_other category category v h ne = absurd (ne refl)
read-write_other project project v h ne = absurd (ne refl)
read-write_other branch branch v h ne = absurd (ne refl)
read-write_other language language v h ne = absurd (ne refl)
read-write_other editor editor v h ne = absurd (ne refl)
read-write_other operating_system operating_system v h ne = absurd (ne refl)
read-write_other _ _ v h ne = refl

field_among-name :
    (fs : List Field) (s : Str) (f : Field) → field_among fs s ≡ some f → s ≡ name_of f
unfolding field_among
field_among-name [] s f h = cc
field_among-name (g ∷ fs) s f h = elim (Bool-cases (str_eq s (name_of g))) [
  | inl e ↦ cc (str_eq→eq s (name_of g) e, (rw e at h))
  | inr e ↦ field_among-name fs s f (rw e at h)
]

field_of-name : (s : Str) (f : Field) → field_of s ≡ some f → s ≡ name_of f
unfolding field_of
field_of-name s f h = field_among-name all_fields s f h

-- A name in the table of valid fields is a case of the switches.
field_of-valid :
    (s : Str) → is_in valid_custom_rule_fields s ≡ true → (f : Field) × (field_of s ≡ some f)
unfolding is_in field_of
field_of-valid s h = elim (Option-cases (field_of s)) [
  | inl e ↦ absurd (ground (arith, e))
  | inr (f, e) ↦ (f, e)
]

-- A write through one case is not read through another.
read-write_options :
    (p o : Option Field) (v : Str) (h : Heartbeat)
    → ((f : Field) → p ≡ some f → o ≡ some f → ⊥)
    → read o (write p v h) ≡ read o h
unfolding read write
read-write_options none o v h apart = refl
read-write_options (some g) none v h apart = refl
read-write_options (some g) (some f) v h apart = read-write_other f g v h (λ e. apart f (cc) refl)

-- A name that is not in the table is no case of the switches.
field_of-invalid : (s : Str) → is_in valid_custom_rule_fields s ≡ false → field_of s ≡ none
unfolding is_in field_of
field_of-invalid s h = ground arith

module _ (st : Strings) (h : Heartbeat) (v : Str) where
  -- A field that validation accepts reads back what is written to it, whatever spelling of its name is
  -- used; and no other field is changed by the write, nor any by a write to a field that validation
  -- refuses.
  pub heartbeat_field-set :
      (d f : Str)
      → heartbeat_field st (set_heartbeat_field st h d v) f ≡ (
          if valid_custom_rule_field st d && str_eq (normalize_field st d) (normalize_field st f)
          then v
          else heartbeat_field st h f)
  unfolding heartbeat_field set_heartbeat_field valid_custom_rule_field write
  heartbeat_field-set d f =
      let norm = normalize_field st d in
      let norm' = normalize_field st f in
      elim (Bool-cases (is_in valid_custom_rule_fields norm)) [
        | inr bad ↦ rw (bad, field_of-invalid norm bad)
        | inl good ↦ elim (Bool-cases (str_eq norm norm')) [
          | inl same ↦
              let (g, e) = field_of-valid norm good in
              rw (good, same, ← str_eq→eq norm norm' same, e) (read-write g v h)
          | inr other ↦
              rw (good, other)
                (read-write_options (field_of norm) (field_of norm') v h
                  (λ g p q. same_name other (field_of-name _ g p) (field_of-name _ g q)))
        ]
      ]
    where
      same_name : {a b c : Str} → str_eq a b ≡ false → a ≡ c → b ≡ c → ⊥
      same_name {a} {b} {c} ne p q = cc (ne, str_eq_refl c, p, q)

-- A heartbeat without the eight fields that rules may write.
abbrev pub untouched : Heartbeat → Heartbeat
untouched h = record h {
  entity = [];
  entity_type = [];
  category = [];
  project = [];
  branch = [];
  language = [];
  editor = [];
  operating_system = [];
}

untouched-write :
    (o : Option Field) (v : Str) (h : Heartbeat) → untouched (write o v h) ≡ untouched h
unfolding write
untouched-write none v h = refl
untouched-write (some entity) v h = refl
untouched-write (some entity_type) v h = refl
untouched-write (some _) v h = refl

untouched-set_all :
    (st : Strings) (ds : List Destination) (h : Heartbeat)
    → untouched (set_all st h ds) ≡ untouched h
unfolding set_all set_heartbeat_field
untouched-set_all st [] h = refl
untouched-set_all st (d ∷ ds) h =
    untouched-set_all st ds _
    ∙ untouched-write (field_of (normalize_field st d.destination)) d.destination_value h

untouched-change_by :
    (st : Strings) (h : Heartbeat) (r : CustomRule) → untouched (change_by st h r) ≡ untouched h
unfolding change_by
untouched-change_by st h r = elim (Bool-cases (str_eq r.action (codes "change"))) [
  | inl e ↦ rw e (untouched-set_all st r.destinations h)
  | inr e ↦ rw e
]

-- Rules change nothing of a heartbeat but its entity, type, category, project, branch, language, editor
-- and operating system: its time, its tokens and all else stay, however many rules match.
pub apply_prepared_custom_rules-untouched :
    (st : Strings) (h : Heartbeat) (ps : List Prepared)
    → untouched (apply_prepared_custom_rules st h ps).0 ≡ untouched h
unfolding apply_prepared_custom_rules
apply_prepared_custom_rules-untouched st h [] = refl
apply_prepared_custom_rules-untouched st h (p ∷ ps) =
    elim (Bool-cases (prepared_rule_matches st h p)) [
      | inl e ↦ elim (Bool-cases (str_eq p.rule.action (codes "delete"))) [
        | inl d ↦ rw (e, d)
        | inr d ↦
            rw (e, d)
              (apply_prepared_custom_rules-untouched st (change_by st h p.rule) ps
                ∙ untouched-change_by st h p.rule)
      ]
      | inr e ↦ rw e (apply_prepared_custom_rules-untouched st h ps)
    ]

-- Rules in sequence: the second batch sees the heartbeat as the first has changed it, and is not
-- reached once a rule of the first has deleted the heartbeat.
pub apply_prepared_custom_rules-append :
    (st : Strings) (h : Heartbeat) (ps qs : List Prepared)
    → apply_prepared_custom_rules st h (ps ++ qs) ≡ (
        let (h', deleted) = apply_prepared_custom_rules st h ps in
        if deleted then (h', true) else apply_prepared_custom_rules st h' qs)
unfolding apply_prepared_custom_rules
apply_prepared_custom_rules-append st h [] qs = refl
apply_prepared_custom_rules-append st h (p ∷ ps) qs =
    elim (Bool-cases (prepared_rule_matches st h p)) [
      | inl e ↦ elim (Bool-cases (str_eq p.rule.action (codes "delete"))) [
        | inl d ↦ rw (e, d)
        | inr d ↦ rw (e, d) (apply_prepared_custom_rules-append st (change_by st h p.rule) ps qs)
      ]
      | inr e ↦ rw e (apply_prepared_custom_rules-append st h ps qs)
    ]
