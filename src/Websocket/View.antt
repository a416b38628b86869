-- ===== src/Websocket/View.antt =====
-- The reader without its buffer: what it is in the middle of, and the payload so far. However the
-- stream is cut into reads, the frames come out the same.
use ape_server.Prelude.{
  ℕ, ◌%◌, ◌≡◌, ◌∙◌, refl, fun_ext, sym, ap, Bool, true, false, Option, none, some, List, [], ◌∷◌,
  ◌++◌, append_assoc, ◌==◌,
}
use ape_server.Prelude.Text.{CString}
use ape_server.Websocket.{
  is_data, Reader, Output, header, unmask, count_down, end_frame, deliver, next_byte,
}

pub record View : Type 0 where
  pub reader : Reader
  pub body : CString

-- the end of a frame; `none` is where the reader stays
unfoldable pub delivered : Reader → List Output × Bool → Option (View × List Output)
delivered r (out, true) = none
delivered r (out, false) = some (record { reader = next_byte (end_frame r); body = [] }, out)

unfoldable pub passed : CString → Option Reader → Option (View × List Output)
passed body none = none
passed body (some r) = some (record { reader = next_byte r; body = body }, [])

unfoldable pub view_step : View → ℕ → Option (View × List Output)
unfolding delivered passed
view_step v b = elim (is_data v.reader.step) [
  | true ↦
      let body = v.body ++ unmask v.reader b ∷ [] in
      let r = count_down v.reader in
      elim (r.extended_length == 0) [
        | true ↦ delivered r (deliver (r.start % 16) body)
        | false ↦ some (record { reader = next_byte r; body = body }, [])
      ]
  | false ↦ passed v.body (header v.reader.step v.reader b)
]

abbrev pub Run : Type 0
Run = Option (View × List Output)

abbrev pub output_before : List Output → Run → Run
output_before out none = none
output_before out (some (v, more)) = some (v, out ++ more)

abbrev pub followed : Run → (View → Run) → Run
followed none f = none
followed (some (v, out)) f = output_before out (f v)

unfoldable pub watch : View → List ℕ → Run
unfolding view_step
watch v [] = some (v, [])
watch v (b ∷ bs) = followed (view_step v b) (λ v'. watch v' bs)

pub followed_nil : (a : Run) → output_before [] a ≡ a
followed_nil none = refl
followed_nil (some (v, out)) = refl

output_before-followed :
    (out : List Output) (a : Run) (g : View → Run)
    → followed (output_before out a) g ≡ output_before out (followed a g)
output_before-followed out none g = refl
output_before-followed out (some (v, more)) g = twice out more (g v)
  where
    twice :
        (out more : List Output) (a : Run)
        → output_before (out ++ more) a ≡ output_before out (output_before more a)
    twice out more none = refl
    twice out more (some (v, last)) = ap (λ o. some (v, o)) (append_assoc out more last)

followed_assoc :
    (a : Run) (f g : View → Run) → followed (followed a f) g ≡ followed a (λ v. followed (f v) g)
followed_assoc none f g = refl
followed_assoc (some (v, out)) f g = output_before-followed out (f v) g

pub watch-append :
    (v : View) (xs ys : List ℕ) → watch v (xs ++ ys) ≡ followed (watch v xs) (λ v'. watch v' ys)
unfolding watch
watch-append v [] ys = sym (followed_nil (watch v ys))
watch-append v (b ∷ xs) ys =
    ap (followed (view_step v b)) (fun_ext (λ v'. watch-append v' xs ys))
    ∙ sym (followed_assoc (view_step v b) (λ v'. watch v' xs) (λ v'. watch v' ys))
