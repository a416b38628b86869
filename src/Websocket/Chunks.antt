-- ===== src/Websocket/Chunks.antt =====
-- A stream of frames that comes in several reads, as the event loop hands it to the reader.
use ape_server.Prelude.{◌≡◌, refl, sym, subst, none, some, List, [], ◌∷◌, ◌++◌, arith}
use ape_server.Prelude.Text.{CString}
use ape_server.Websocket.{Output, parser_init_stream, State, frame_loop, prepend}
use ape_server.Websocket.View.{View, Run, output_before, watch, watch-append, followed}
use ape_server.Websocket.Shows.{Shows, Follows, Follows-prepend, frame_loop-Follows}

-- what a read adds, and the loop over it
unfoldable pub feed : State → CString → State × List Output
feed s bs = frame_loop s.seen (s.rest ++ bs) s.data_pos s.reader

unfoldable pub feed_all : State → List CString → State × List Output
unfolding feed
feed_all s [] = (s, [])
feed_all s (bs ∷ reads) = prepend (feed s bs).1 (feed_all (feed s bs).0 reads)

abbrev pub all_of : List CString → CString
all_of [] = []
all_of (bs ∷ reads) = bs ++ all_of reads

-- a connection that has just become a websocket
abbrev pub fresh : State
fresh = record { seen = []; rest = []; data_pos = 0; reader = parser_init_stream }

abbrev pub fresh_view : View
fresh_view = record { reader = parser_init_stream; body = [] }

fresh-Shows : Shows fresh fresh_view
fresh-Shows = record {
  reader = refl;
  body = refl;
  inside = omega arith;
  in_data = refl;
  begun = refl;
  rest = refl;
}

feed-Follows : (s : State) (v : View) (bs : CString) → Shows s v → Follows (feed s bs) (watch v bs)
unfolding feed
feed-Follows s v bs sh =
    rw (sh.rest, sh.reader)
      (frame_loop-Follows bs s.seen s.data_pos v (record {
        reader = refl;
        body = sh.body;
        inside = sh.inside;
        in_data = sh.in_data;
        begun = sh.begun;
        rest = refl;
      }))

Follows-next :
    (l : State × List Output) (r : Run) (reads : List CString)
    → Follows l r
    → ((s : State) (v : View) → Shows s v → Follows (feed_all s reads) (watch v (all_of reads)))
    → Follows (prepend l.1 (feed_all l.0 reads)) (followed r (λ v. watch v (all_of reads)))
Follows-next l none reads f h = tt
Follows-next (s, out) (some (v, out')) reads (e, sh) h =
    subst (λ o. Follows (prepend out (feed_all s reads)) (output_before o (watch v (all_of reads))))
      e (Follows-prepend out (feed_all s reads) (watch v (all_of reads)) (h s v sh))

feed_all-Follows :
    (reads : List CString) (s : State) (v : View)
    → Shows s v
    → Follows (feed_all s reads) (watch v (all_of reads))
unfolding feed_all watch
feed_all-Follows [] s v sh = (refl, sh)
feed_all-Follows (bs ∷ reads) s v sh =
    subst (Follows (feed_all s (bs ∷ reads))) (sym (watch-append v bs (all_of reads))) (
      Follows-next (feed s bs) (watch v bs) reads (feed-Follows s v bs sh) (feed_all-Follows reads))

Follows-output :
    (l : State × List Output) (v : View) (out : List Output) → Follows l (some (v, out)) → l.1 ≡ out
Follows-output (s, out') v out (e, sh) = e

-- Where the view, which takes a stream byte by byte and keeps the payload so far, comes to its end
-- without staying on a byte, the reader with its buffer puts out the same, in the same order, however
-- the stream is cut into reads.
pub feed_all-watch :
    (reads : List CString) (v : View) (out : List Output)
    → watch fresh_view (all_of reads) ≡ some (v, out)
    → (feed_all fresh reads).1 ≡ out
feed_all-watch reads v out e =
    Follows-output (feed_all fresh reads) v out (
      subst (Follows (feed_all fresh reads)) e
        (feed_all-Follows reads fresh fresh_view fresh-Shows))
