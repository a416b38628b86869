-- ===== src/Tests/Requests.antt =====
-- A request whose header fields come in two reads.
use ape_server.Prelude.{◌≡◌, refl, some, [], ◌∷◌, ◌++◌}
use ape_server.Prelude.Text.{codes, casecmp, str_eq, lower, tolower}
use ape_server.Strings.{seof}
use ape_server.Http.Response.{ncasecmp}
use ape_server.Http.Request.{Request, http_get, parser_init_http, receive}
use ape_server.Http.Fitting.{Fits}
use ape_server.Http.Reads.{Numbered}
use ape_server.Http.Pieces.{receive-append}

-- "GET /" and the end of the line, after its step: the space behind the address is NUL
abbrev begun : Request
begun = record parser_init_http {
  bytes = 71 ∷ 69 ∷ 84 ∷ 32 ∷ 47 ∷ 0 ∷ 10 ∷ [];
  step = 1;
  method = http_get;
  pos = 7;
  uri = some 4;
}

begun-Fits : Fits begun
begun-Fits = record { content_length = tt; hlines = tt }

begun-Numbered : Numbered (begun.bytes ++ codes "Ho")
unfolding ncasecmp casecmp str_eq lower tolower
begun-Numbered = (refl, (refl, (refl, (refl, (refl, (refl, (refl, (refl, (refl, tt)))))))))

waiting : receive begun (codes "Ho") ≡ some (record begun { bytes = begun.bytes ++ codes "Ho" }, [])
unfolding receive seof
waiting = refl

receive-append_example :
    receive (record begun { bytes = begun.bytes ++ codes "Ho" }) (codes "st: a\r\n\r\n")
    ≡ receive begun (codes "Ho" ++ codes "st: a\r\n\r\n")
receive-append_example =
    receive-append begun (record begun { bytes = begun.bytes ++ codes "Ho" }) (codes "Ho")
      (codes "st: a\r\n\r\n") begun-Fits refl refl begun-Numbered waiting refl
