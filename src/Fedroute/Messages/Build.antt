-- ===== src/Fedroute/Messages/Build.antt =====
-- The builders of federation messages (src/fedroute.rs), and the test of a position.
use brew_server.Common.{
  ℕ, zero, suc, ◌%◌, ◌^◌, Bool, true, false, not, ◌&&◌, ◌||◌, Option, none, some, List, [], ◌∷◌,
  ◌++◌, if◌then◌else◌, ltb, leb, nat_beq, min, Text, length, get_elem?, take, nat_eq, to_le,
  word_bytes,
}
use brew_server.State.{CallId}
use brew_server.Protocol.{class_federation}
use brew_server.Fedroute.Messages.{
  fed_withdraw, fed_route, fed_prune, fed_bts_hello, fed_bts, fed_ms_pos, fed_emergency,
  hello_version, max_bts_text, BtsAdvert, MsAdvert, EmAdvert,
}

-- The magnitude of an f64 is its low 63 bits, ordered as the bits are; a NaN or an infinity is
-- above every finite one. 90.0 and 180.0 are written out.
abbrev magnitude : ℕ → ℕ
magnitude bits = bits % 2 ^ 63

unfoldable pub valid_position : ℕ → ℕ → Bool
valid_position lat lon =
    leb (magnitude lat) 0x4056800000000000
    && leb (magnitude lon) 0x4066800000000000
    && (not (nat_beq (magnitude lat) 0) || not (nat_beq (magnitude lon) 0))

-- `str::is_char_boundary`: the end, or a byte that is no continuation byte.
abbrev is_char_boundary : Text → ℕ → Bool
is_char_boundary s i = elim (get_elem? s i) [ none ↦ true | some b ↦ ltb b 0x80 || leb 0xc0 b ]

clip_end : Text → ℕ → ℕ
clip_end s zero = 0
clip_end s (suc n) =
    let shorter = clip_end s n in if is_char_boundary s (suc n) then suc n else shorter

unfoldable pub clip : Text → Text
unfolding clip_end
clip s = take (clip_end s (min (length s) max_bts_text)) s

abbrev pub flag : Bool → ℕ
flag true = 1
flag false = 0

abbrev pub dest_or_0 : Option ℕ → ℕ
dest_or_0 none = 0
dest_or_0 (some d) = d

unfoldable pub build_bts_hello : List ℕ
build_bts_hello = class_federation ∷ fed_bts_hello ∷ hello_version ∷ []

unfoldable pub build_withdraw : ℕ → List ℕ
build_withdraw issi = class_federation ∷ fed_withdraw ∷ to_le 4 issi

unfoldable pub build_prune : CallId → ℕ → List ℕ
build_prune id source_issi = class_federation ∷ fed_prune ∷ (id ++ to_le 4 source_issi)

-- `path.len() as u8` keeps the low byte.
unfoldable pub build_route : ℕ → ℕ → List ℕ → List ℕ → List ℕ
build_route issi reg path groups =
    class_federation
    ∷ fed_route
    ∷ (to_le 4 issi
        ++ (to_le 8 reg ++ (length path % 256 ∷ (word_bytes 8 path ++ word_bytes 4 groups))))

unfoldable pub build_emergency : EmAdvert → List ℕ
unfolding clip
build_emergency a =
    class_federation
    ∷ fed_emergency
    ∷ (to_le 8 a.seq
        ++ (flag a.active
            ∷ (to_le 4 a.issi
                ++ (to_le 4 (dest_or_0 a.dest)
                    ++ (length a.path % 256
                        ∷ (word_bytes 8 a.path ++ (length (clip a.bts) % 256 ∷ clip a.bts)))))))

unfoldable pub build_ms_pos : MsAdvert → List ℕ
unfolding clip
build_ms_pos a =
    class_federation
    ∷ fed_ms_pos
    ∷ (to_le 8 a.at_ms
        ++ (to_le 4 a.issi
            ++ (to_le 8 a.lat
                ++ (to_le 8 a.lon
                    ++ (length a.path % 256
                        ∷ (word_bytes 8 a.path
                            ++ (length (clip a.station) % 256 ∷ clip a.station)))))))

unfoldable pub build_bts : BtsAdvert → List ℕ
unfolding clip
build_bts a =
    class_federation
    ∷ fed_bts
    ∷ (to_le 8 a.seq
        ++ (flag a.online
            ∷ (to_le 8 a.lat
                ++ (to_le 8 a.lon
                    ++ (length a.path % 256
                        ∷ (word_bytes 8 a.path
                            ++ (length (clip a.key) % 256
                                ∷ (clip a.key ++ (length (clip a.name) % 256 ∷ clip a.name)))))))))
