-- ===== src/Http/Fields.antt =====
-- The fields of a response that http_send_headers sends.
use ape_server.Prelude.{◌≡◌, refl, Bool, true, false, none, some, List, [], ◌∷◌, if◌then◌else◌}
use ape_server.Sock.Say.{Out}
use ape_server.Http.Response.{Field, say_field, say_fields}

unfoldable pub even {ℓ} : {A : Type ℓ} → List A → Bool
even [] = true
even (x ∷ []) = false
even (x ∷ y ∷ xs) = even xs

-- the first of them, the third and so on
unfoldable pub odd_places {ℓ} : {A : Type ℓ} → List A → List A
odd_places [] = []
odd_places (x ∷ []) = x ∷ []
odd_places (x ∷ y ∷ xs) = x ∷ odd_places xs

unfoldable pub say_each : List Field → Out → Out
say_each [] o = o
say_each (f ∷ fs) o = say_each fs (say_field f o)

-- Of an even number of fields every second one is sent, from the first on; with an odd number of
-- fields the loop reads through NULL.
pub say_fields-odd_places :
    (fs : List Field) (o : Out)
    → say_fields fs o ≡ (if even fs then some (say_each (odd_places fs) o) else none)
unfolding say_fields even odd_places say_each
say_fields-odd_places [] o = refl
say_fields-odd_places (f ∷ []) o = refl
say_fields-odd_places (f ∷ g ∷ fs) o = say_fields-odd_places fs (say_field f o)
