-- ===== src/Info/RoundTrip.antt =====
-- `parse_info` of network_config.c on the replies that python_proxi/proxi.py writes.
use ikt104_eksamen_oppgave.Base.{
  Bool, true, false, ◌||◌, List, [], ◌∷◌, ◌≡◌, refl, sym, ◌∙◌, ap, arith, Option, none, some,
  if◌then◌else◌, ◌==◌, Bytes, All, strstr,
}
use ikt104_eksamen_oppgave.Proxy.{Value, dump_value, Member, dumps}
use ikt104_eksamen_oppgave.Proxy.Members.{
  find_member, IsMember, Finds, absent, present, strstr-dumps,
}
use ikt104_eksamen_oppgave.Info.{
  InfoData, Field, city_field, fields, field_name, quoted_key, set_field, get_field, read_value,
  parse_found, parse_fields, parse_info,
}
use ikt104_eksamen_oppgave.Info.Values.{IsSimple, stored, read_value-dump_value, drop_key}
use ikt104_eksamen_oppgave.Info.Table.{
  field_name-IsKey, field_id, get_field-set_field, has_field, field_of_id,
}

-- What is stored where a member was found, and kept where none was.
abbrev pub stored_or : Option Value → Bytes → Bytes
stored_or none old = old
stored_or (some v) old = stored v

abbrev pub IsSimpleOption : Option Value → Type 0
IsSimpleOption none = Unit
IsSimpleOption (some v) = IsSimple v

abbrev update_field : Field → Option Value → InfoData → InfoData
update_field f none g = g
update_field f (some v) g = set_field f (stored v) g

parse_found-Finds :
    (f : Field) {o : Option Value} {t : Option Bytes} (g : InfoData)
    → Finds (field_name f) o t
    → IsSimpleOption o
    → parse_found f t g ≡ update_field f o g
unfolding parse_found
parse_found-Finds f g absent h = refl
parse_found-Finds f g (present v rest fm) h =
    ap (λ text. set_field f text g)
      (ap read_value (drop_key (field_name f) (b' ' ∷ dump_value v rest))
        ∙ read_value-dump_value v rest h fm)

stored_or_idem : (o : Option Value) (old : Bytes) → stored_or o (stored_or o old) ≡ stored_or o old
stored_or_idem none old = refl
stored_or_idem (some v) old = refl

get_field-update_field :
    (f f' : Field) (o : Option Value) (g : InfoData)
    → get_field f (update_field f' o g)
      ≡ (if field_id f == field_id f' then stored_or o (get_field f g) else get_field f g)
get_field-update_field f f' none g = ground arith
get_field-update_field f f' (some v) g = get_field-set_field f f' (stored v) g

in_table : (f : Field) → has_field f fields ≡ true
in_table city_field = refl
in_table _ = refl

ready_apart :
    (f : Field) (json : Bytes) (g : InfoData)
    → get_field f (parse_info json g) ≡ get_field f (parse_fields json fields g)
unfolding get_field parse_info
ready_apart city_field json g = refl
ready_apart _ json g = refl

-- A field that two rows name is stored twice, with the same value.
stored_twice :
    (a b : Bool) (o o' : Option Value) (x : Bytes)
    → (a ≡ true → o' ≡ o)
    → (if b
        then stored_or o (if a then stored_or o' x else x)
        else (if a then stored_or o' x else x))
      ≡ (if a || b then stored_or o x else x)
stored_twice true true o o' x e =
    ap (λ w. stored_or o (stored_or w x)) (e refl) ∙ stored_or_idem o x
stored_twice true false o o' x e = ap (λ w. stored_or w x) (e refl)
stored_twice false true o o' x e = refl
stored_twice false false o o' x e = refl

module _ (ms : List Member) (h : All IsMember ms)
    (simple : (f : Field) → IsSimpleOption (find_member (field_name f) ms)) where
  round_updates :
      (f : Field) (g : InfoData)
      → parse_found f (strstr (dumps ms) (quoted_key (field_name f))) g
        ≡ update_field f (find_member (field_name f) ms) g
  round_updates f g =
      parse_found-Finds f g (strstr-dumps (field_name f) (field_name-IsKey f) ms h) (simple f)

  get_field-parse_fields :
      (f : Field) (fs : List Field) (g : InfoData)
      → get_field f (parse_fields (dumps ms) fs g) ≡ (
          if has_field f fs
          then stored_or (find_member (field_name f) ms) (get_field f g)
          else get_field f g)
  unfolding parse_fields
  get_field-parse_fields f [] g = refl
  get_field-parse_fields f (f' ∷ fs) g =
      let o = find_member (field_name f) ms in
      let o' = find_member (field_name f') ms in
      rw (round_updates f' g) (get_field-parse_fields f fs (update_field f' o' g))
      ∙ ap (λ x. if has_field f fs then stored_or o x else x) (get_field-update_field f f' o' g)
      ∙ stored_twice (field_id f == field_id f') (has_field f fs) o o' (get_field f g)
          (λ e. ap (λ w. find_member (field_name w) ms) (sym (field_of_id f f' (ground arith))))

  -- On the text of a dictionary with plain keys, `parse_info` stores the text of each member whose
  -- key the table names, cut to 31 bytes, leaves the other strings as they were, and sets `ready`.
  pub parse_info-dumps :
      (f : Field) (g : InfoData)
      → (get_field f (parse_info (dumps ms) g)
          ≡ stored_or (find_member (field_name f) ms) (get_field f g))
        × ((parse_info (dumps ms) g).ready ≡ true)
  parse_info-dumps f g = (
    ready_apart f (dumps ms) g
        ∙ get_field-parse_fields f fields g
        ∙ ap
            (λ b.
              if b
              then stored_or (find_member (field_name f) ms) (get_field f g)
              else get_field f g)
            (in_table f),
    unfold parse_info in refl,
  )
