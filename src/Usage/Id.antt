-- ===== src/Usage/Id.antt =====
-- `ComputeEventID`, `EnsureID` and `hashParts`. SHA-256 and `fmt.Sprint` are parameters.
use stint.Prelude.{
  ℕ, ◌≡◌, ◌≢◌, not, ◌&&◌, List, [], ◌∷◌, ◌++◌, arith, if◌then◌else◌, Bool-cases, inl, inr,
}
use stint.Prelude.Text.{Str, codes, str_eq, str_eq_ne}
use stint.Usage.{Event}

pub record Hash : Type 0 where
  -- the hexadecimal form of the first 16 bytes of the SHA-256 sum
  pub digest : Str → Str
  pub sprint : ℕ → Str

abbrev pub separator : ℕ
separator = 0x1f

-- `strings.Join(parts, "\x1f")`
unfoldable pub join : List Str → Str
join [] = []
join (p ∷ []) = p
join (p ∷ q ∷ ps) = p ++ separator ∷ join (q ∷ ps)

-- The tag of an id.
pub data Kind : Type 0 where
  ids message request shape : Kind

abbrev pub prefix_of : Kind → Str
prefix_of ids = codes "id:"
prefix_of message = codes "msg:"
prefix_of request = codes "req:"
prefix_of shape = codes "h:"

unfoldable pub hash_parts : Hash → List Str → Str
unfolding join
hash_parts h parts = h.digest (join parts)

module _ {USD : Type 0} (h : Hash) where
  open h use {sprint}

  unfoldable pub shape_parts : Event USD → List Str
  shape_parts e =
      e.agent
      ∷ e.session_id
      ∷ e.timestamp
      ∷ e.model
      ∷ sprint e.input_tokens
      ∷ sprint e.output_tokens
      ∷ sprint e.cache_create_5m_tokens
      ∷ sprint e.cache_create_1h_tokens
      ∷ sprint e.cache_read_tokens
      ∷ sprint e.reasoning_tokens
      ∷ []

  unfoldable pub compute_event_id : Event USD → Str
  unfolding hash_parts shape_parts
  compute_event_id e =
      let has_message = not (str_eq e.message_id []) in
      let has_request = not (str_eq e.request_id []) in
      if has_message && has_request
      then codes "id:" ++ hash_parts h (e.message_id ∷ e.request_id ∷ [])
      else if has_message
      then codes "msg:" ++ hash_parts h (e.agent ∷ e.message_id ∷ [])
      else if has_request
      then codes "req:" ++ hash_parts h (e.agent ∷ e.request_id ∷ [])
      else codes "h:" ++ hash_parts h (shape_parts e)

  unfoldable pub ensure_id : Event USD → Event USD
  unfolding compute_event_id
  ensure_id e = if str_eq e.event_id [] then record e { event_id = compute_event_id e } else e

  pub compute_event_id-ne-nil : (e : Event USD) → compute_event_id e ≢ []
  unfolding compute_event_id
  compute_event_id-ne-nil e = ground arith

  -- An event that has been given an id keeps it.
  pub ensure_id_idem : (e : Event USD) → ensure_id (ensure_id e) ≡ ensure_id e
  unfolding ensure_id
  ensure_id_idem e = elim (Bool-cases (str_eq e.event_id [])) [
    | inl none_yet ↦
        rw none_yet (rw (str_eq_ne (compute_event_id e) [] (compute_event_id-ne-nil e)))
    | inr there ↦ rw (there, there)
  ]
