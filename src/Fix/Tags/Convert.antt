-- ===== src/Fix/Tags/Convert.antt =====
-- The conversions between the values of the enumerations, their names and their texts.
use fast_little_market.Common.{ℕ, List, Option, map}
use fast_little_market.Fix.Tags.Table.{index_of, at}
use fast_little_market.Fix.Tags.Fields.{field_tag_list}
use fast_little_market.Fix.Tags.Messages.{msg_type_list}

abbrev pub field_tag_to_fix : List (List ℕ)
field_tag_to_fix = map (λ l. l.text) field_tag_list

abbrev pub field_tag_to_name : List (List ℕ)
field_tag_to_name = map (λ l. l.name) field_tag_list

abbrev pub msg_type_to_fix : List (List ℕ)
msg_type_to_fix = map (λ l. l.text) msg_type_list

abbrev pub msg_type_to_name : List (List ℕ)
msg_type_to_name = map (λ l. l.name) msg_type_list

unfoldable pub stoft : List ℕ → Option ℕ
stoft s = index_of field_tag_to_fix s

unfoldable pub fton : ℕ → Option (List ℕ)
fton t = at field_tag_to_name t

unfoldable pub ftof : ℕ → Option (List ℕ)
ftof t = at field_tag_to_fix t

unfoldable pub stom : List ℕ → Option ℕ
stom s = index_of msg_type_to_fix s

unfoldable pub mtos : ℕ → Option (List ℕ)
mtos t = at msg_type_to_name t

unfoldable pub mtof : ℕ → Option (List ℕ)
mtof t = at msg_type_to_fix t
