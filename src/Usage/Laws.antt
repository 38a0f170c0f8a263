-- ===== src/Usage/Laws.antt =====
-- Ids: which events `ComputeEventID` keeps apart.
use stint.Prelude.{
  ℕ, ◌≡◌, ◌≢◌, refl, sym, ◌∙◌, not, ◌&&◌, List, [], ◌∷◌, ◌++◌, arith, if◌then◌else◌, All, length,
  ◌↔◌,
}
use mathlib.Core.Path.{subst, ap₂}
use stint.Prelude.Text.{Str, str_eq}
use stint.Usage.{Event}
use stint.Usage.Id.{
  Hash, separator, join, Kind, ids, message, request, shape, prefix_of, hash_parts, shape_parts,
  compute_event_id,
}

abbrev pub Clean : Str → Type 0
Clean = All (λ c. c ≢ separator)

-- Texts without the separator are read off a joined text.
Clean-head :
    (p q ps qs : Str)
    → Clean p
    → Clean q
    → p ++ separator ∷ ps ≡ q ++ separator ∷ qs
    → (p ≡ q) × (ps ≡ qs)
Clean-head [] [] ps qs _ _ e = (refl, cc)
Clean-head [] (c ∷ q) ps qs _ (n, _) e = absurd (n (cc))
Clean-head (c ∷ p) [] ps qs (n, _) _ e = absurd (n (cc))
Clean-head (c ∷ p) (d ∷ q) ps qs (_, cp) (_, cq) e =
    let (heads, tails) = Clean-head p q ps qs cp cq (cc) in (cc, tails)

join-injective :
    (ps qs : List Str)
    → All Clean ps
    → All Clean qs
    → length ps ≡ length qs
    → join ps ≡ join qs
    → ps ≡ qs
unfolding join
join-injective [] [] _ _ _ e = refl
join-injective [] (q ∷ qs) _ _ l e = absurd (omega arith)
join-injective (p ∷ ps) [] _ _ l e = absurd (omega arith)
join-injective (p ∷ []) (q ∷ []) _ _ l e = cc
join-injective (p ∷ []) (q ∷ q' ∷ qs) _ _ l e = absurd (omega arith)
join-injective (p ∷ p' ∷ ps) (q ∷ []) _ _ l e = absurd (omega arith)
join-injective (p ∷ p' ∷ ps) (q ∷ q' ∷ qs) (cp, cps) (cq, cqs) l e =
    let (heads, tails) = Clean-head p q (join (p' ∷ ps)) (join (q' ∷ qs)) cp cq e in
    let rest = join-injective (p' ∷ ps) (q' ∷ qs) cps cqs (omega arith) tails in cc

prefix_of-injective :
    (k k' : Kind) (x y : Str) → prefix_of k ++ x ≡ prefix_of k' ++ y → (k ≡ k') × (x ≡ y)
prefix_of-injective ids ids x y e = ground arith
prefix_of-injective message message x y e = ground arith
prefix_of-injective request request x y e = ground arith
prefix_of-injective shape shape x y e = ground arith
prefix_of-injective _ _ x y e = ground arith

-- The texts of an event that enter its id hold no separator.
pub record IsClean {USD : Type 0} (e : Event USD) : Type 0 where
  pub message : Clean e.message_id
  pub request : Clean e.request_id
  pub agent : Clean e.agent
  pub session : Clean e.session_id
  pub timestamp : Clean e.timestamp
  pub model : Clean e.model

-- What an ideal hash and a decimal print give: no collisions, and no separator in a number.
pub record IsIdeal (h : Hash) : Type 0 where
  pub digest-injective : (a b : Str) → h.digest a ≡ h.digest b → a ≡ b
  pub sprint-Clean : (n : ℕ) → Clean (h.sprint n)

module _ {USD : Type 0} (h : Hash) where
  -- The tag and the parts that the id of an event is built from.
  abbrev pub kind_of : Event USD → Kind
  kind_of e =
      if not (str_eq e.message_id []) && not (str_eq e.request_id [])
      then ids
      else if not (str_eq e.message_id [])
      then message
      else if not (str_eq e.request_id [])
      then request
      else shape

  abbrev pub parts_of : Kind → Event USD → List Str
  parts_of ids e = e.message_id ∷ e.request_id ∷ []
  parts_of message e = e.agent ∷ e.message_id ∷ []
  parts_of request e = e.agent ∷ e.request_id ∷ []
  parts_of shape e = shape_parts h e

  compute_event_id-parts :
      (e : Event USD)
      → compute_event_id h e ≡ prefix_of (kind_of e) ++ hash_parts h (parts_of (kind_of e) e)
  unfolding compute_event_id
  compute_event_id-parts e = ground arith

  module _ (ideal : IsIdeal h) where
    parts_of-Clean : (k : Kind) (e : Event USD) → IsClean e → All Clean (parts_of k e)
    unfolding shape_parts
    parts_of-Clean ids e c = (c.message, (c.request, tt))
    parts_of-Clean message e c = (c.agent, (c.message, tt))
    parts_of-Clean request e c = (c.agent, (c.request, tt))
    parts_of-Clean shape e c =
        let s = ideal.sprint-Clean in
        (
          c.agent,
          (c.session, (c.timestamp, (c.model, (s _, (s _, (s _, (s _, (s _, (s _, tt))))))))),
        )

    length-parts_of : (k : Kind) (e e' : Event USD) → length (parts_of k e) ≡ length (parts_of k e')
    unfolding shape_parts
    length-parts_of ids e e' = refl
    length-parts_of message e e' = refl
    length-parts_of request e e' = refl
    length-parts_of shape e e' = refl

    same_parts :
        (k k' : Kind) (e e' : Event USD)
        → IsClean e
        → IsClean e'
        → prefix_of k ++ hash_parts h (parts_of k e) ≡ prefix_of k' ++ hash_parts h (parts_of k' e')
        → (k ≡ k') × (parts_of k e ≡ parts_of k' e')
    unfolding hash_parts
    same_parts k k' e e' c c' same =
        let (kinds, digests) = prefix_of-injective k k' _ _ same in
        let joins = ideal.digest-injective _ _ digests in
        (
          kinds,
          join-injective (parts_of k e) (parts_of k' e') (parts_of-Clean k e c)
              (parts_of-Clean k' e' c')
              (subst (λ j. length (parts_of k e) ≡ length (parts_of j e')) kinds
                (length-parts_of k e e'))
              joins,
        )

    -- Let the hash be free of collisions and the texts free of the separator. Then two events get
    -- one id exactly when they have ids of one kind (both provider ids, a message id, a request id or
    -- neither) and agree on all the parts that ids of this kind are built from.
    pub compute_event_id-eq_iff :
        (e e' : Event USD)
        → IsClean e
        → IsClean e'
        → (compute_event_id h e ≡ compute_event_id h e')
          ↔ ((kind_of e ≡ kind_of e') × (parts_of (kind_of e) e ≡ parts_of (kind_of e') e'))
    compute_event_id-eq_iff e e' c c' = (
      λ same.
          same_parts (kind_of e) (kind_of e') e e' c c'
            (rw (compute_event_id-parts e, compute_event_id-parts e') at same),
      λ (kinds, parts).
          compute_event_id-parts e
          ∙ ap₂ (λ k p. prefix_of k ++ hash_parts h p) kinds parts
          ∙ sym (compute_event_id-parts e'),
    )
