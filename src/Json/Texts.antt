-- ===== src/Json/Texts.antt =====
-- json_to_string prints the text of a value.
use ape_server.Prelude.{
  ℕ, ◌≡◌, refl, ap, ap₂, sym, ◌∙◌, Bool, false, none, some, [], ◌∷◌, ◌++◌, append_assoc, append-nil,
  if◌then◌else◌, length, take, drop, ◌==◌, ◌≤◌, ◌<◌, arith, Bool-cases, inl, inr, zero, suc,
}
use ape_server.Prelude.Text.{CString, codes}
use ape_server.Strings.Numbers.{ℤ, pos, negsuc, magnitude, itos, numeral, digits-numeral}
use ape_server.Json.{c_obj, c_arr, end, item}
use ape_server.Json.Print.{is_end, open_text, close_text, value_text, json_to_string}
use ape_server.Json.Escapes.{escape-escaped, escaped-key}
use ape_server.Json.Values.{
  escaped, Value, Members, Elements, v_str, v_num, v_float, v_true, v_false, v_null, v_obj, v_arr,
  no_members, member, no_elements, element, text, members_text, elements_text, decimal, children,
  member_items, element_items, self_of, IsPlainValue, ArePlainMembers, ArePlainElements, node,
}

take_whole : (n : ℕ) (s : CString) → length s ≤ n → take n s ≡ s
take_whole zero [] le = refl
take_whole (suc n) [] le = refl
take_whole zero (c ∷ s) le = absurd (omega (arith, le))
take_whole (suc n) (c ∷ s) le = ap (λ t. c ∷ t) (take_whole n s (omega (arith, le)))

decimal-zero : (z : ℤ) → magnitude z ≡ 0 → decimal z ≡ codes "0"
unfolding decimal numeral
decimal-zero (pos n) e = ap (λ m. numeral m m) e
decimal-zero (negsuc n) e = absurd (omega (arith, e))

-- What itos writes of a number that is not 0 is its decimal.
itos-decimal : (z : ℤ) → 0 < magnitude z → itos z ≡ decimal z
unfolding itos decimal
itos-decimal (pos n) h = digits-numeral n n [] h (omega arith) ∙ append-nil (numeral n n)
itos-decimal (negsuc n) h =
    ap (λ s. b'-' ∷ s)
      (digits-numeral (suc n) (suc n) [] h (omega arith) ∙ append-nil (numeral (suc n) (suc n)))

module _ (parsed : Bool) where
  -- an item's own text, and that of its children
  abbrev own : Value → CString
  own v = value_text (self_of parsed v (children parsed v)) (children parsed v)

  abbrev below : Value → CString
  below v =
      let t = (self_of parsed v (children parsed v)).child_type in
      if is_end (children parsed v)
      then []
      else open_text t ++ json_to_string (some t) (children parsed v)

  abbrev written : Value → CString
  written v = own v ++ below v

  abbrev WritesValue : Value → Type 0
  WritesValue v = IsPlainValue parsed v → written v ≡ text v

  abbrev WritesMembers : Members → Type 0
  WritesMembers ms =
      ArePlainMembers parsed ms
      → close_text c_obj (member_items parsed ms)
          ++ json_to_string (some c_obj) (member_items parsed ms)
        ≡ members_text ms false

  abbrev WritesElements : Elements → Type 0
  WritesElements es =
      ArePlainElements parsed es
      → close_text c_arr (element_items parsed es)
          ++ json_to_string (some c_arr) (element_items parsed es)
        ≡ elements_text es false

  written-append :
      (v : Value) (rest rest' : CString)
      → written v ≡ text v
      → rest ≡ rest'
      → own v ++ (below v ++ rest) ≡ text v ++ rest'
  written-append v rest rest' e e' =
      sym (append_assoc (own v) (below v) rest) ∙ ap₂ (λ a b. a ++ b) e e'

  num_text : (z : ℤ) → written (v_num z) ≡ text (v_num z)
  unfolding value_text text children
  num_text z = elim (Bool-cases (magnitude z == 0)) [
    | inl e ↦ rw e (sym (decimal-zero z (ground (arith, e))))
    | inr e ↦ rw e (append-nil _ ∙ itos-decimal z (ground (arith, e)))
  ]

  obj_text : (ms : Members) → WritesMembers ms → WritesValue (v_obj ms)
  unfolding text value_text json_to_string IsPlainValue children
  obj_text no_members ih h = absurd h
  obj_text (member k v ms) ih h = ap (λ s. 123 ∷ drop 1 s) (ih h)

  arr_text : (es : Elements) → WritesElements es → WritesValue (v_arr es)
  unfolding text value_text json_to_string IsPlainValue children
  arr_text no_elements ih h = absurd h
  arr_text (element v es) ih h = ap (λ s. 91 ∷ drop 1 s) (ih h)

  value-WritesValue : (v : Value) → WritesValue v
  unfolding text value_text json_to_string IsPlainValue children decimal
  value-WritesValue v = elim v as WritesValue WritesMembers WritesElements [
    | v_str s ↦ λ plain. append-nil _ ∙ ap (λ e. 34 ∷ (e ++ 34 ∷ [])) (escape-escaped s plain)
    | v_num z ↦ λ _. num_text z
    | v_float t ↦ λ le. append-nil _ ∙ take_whole 16 t le
    | v_true ↦ λ e. rw e refl
    | v_false ↦ λ _. refl
    | v_null ↦ λ _. refl
    | v_obj (ms → ih) ↦ obj_text ms ih
    | v_arr (es → ih) ↦ arr_text es ih
    | no_members ↦ λ _. refl
    | member k (w → ih) (ms → ihs) ↦ λ (plain, h, hs).
        ap (λ s. 44 ∷ 34 ∷ s)
          (append_assoc k (34 ∷ 58 ∷ []) _
            ∙ ap (λ s. k ++ 34 ∷ 58 ∷ s) (written-append w _ _ (ih h) (ihs hs))
            ∙ ap (λ s. s ++ 34 ∷ 58 ∷ (text w ++ members_text ms false)) (sym (escaped-key k plain))
            ∙ sym (append_assoc (escaped k) (34 ∷ []) _))
    | no_elements ↦ λ _. refl
    | element (w → ih) (es → ihs) ↦
        λ (h, hs). ap (λ s. 44 ∷ s) (written-append w _ _ (ih h) (ihs hs))
  ]

  -- For a value that prints in JSON (no empty object or array, no float of more than 16 places, no
  -- `true` where the items come from the parser, no apostrophe, no control character without a letter,
  -- no key with a byte to escape): what json_to_string prints of the items that stand for the value
  -- is the text of the value.
  pub json_to_string-text :
      (v : Value)
      → IsPlainValue parsed v
      → json_to_string none (item (node parsed v).self (node parsed v).child end) ≡ text v
  unfolding json_to_string
  json_to_string-text v h =
      written-append v [] [] (value-WritesValue v h) refl ∙ append-nil (text v)
