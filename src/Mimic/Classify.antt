-- ===== src/Mimic/Classify.antt =====
-- internal/mimic: which family a content type or a path belongs to, and what is served when the origin
-- does not say.
use mirage_chaff.Base.{ℕ, [], ◌∷◌, Option, none, some, length, ◌==◌, if◌then◌else◌}
use mirage_chaff.Base.Text.{Text, codes, to_lower}
use mirage_chaff.Base.Strings.{has_prefix, has_suffix, trim_space}
use mirage_chaff.Policy.Rules.{one_of}
use mirage_chaff.Mimic.Generator.{Media, image, js, binary, video, gif1x1}

-- What stands before the first semicolon.
unfoldable pub before_semicolon : Text → Text
before_semicolon [] = []
before_semicolon (c ∷ s) = if c == b';' then [] else c ∷ before_semicolon s

-- `ClassifyContentType`
unfoldable pub classify_content_type : Text → Media
classify_content_type content_type =
    let ct = trim_space (before_semicolon (to_lower (trim_space content_type))) in
    if has_prefix ct (codes "video/")
    then video
    else if has_prefix ct (codes "image/")
    then image
    else if one_of ct (
        codes "application/javascript"
        ∷ codes "text/javascript"
        ∷ codes "application/x-javascript"
        ∷ [])
    then js
    else binary

-- What stands behind the last dot.
unfoldable pub behind_dot : Text → Option Text
behind_dot [] = none
behind_dot (c ∷ s) = elim (behind_dot s) [
  | some e ↦ some e
  | none ↦ if c == b'.' then some s else none
]

-- `ClassifyExt`; none is the empty family.
unfoldable pub classify_ext : Text → Option Media
classify_ext path = elim (behind_dot path) [
  | none ↦ none
  | some e ↦
      let ext = to_lower e in
      if one_of ext (
        codes "mp4"
        ∷ codes "webm"
        ∷ codes "m4s"
        ∷ codes "ts"
        ∷ codes "mov"
        ∷ codes "m3u8"
        ∷ codes "mpd"
        ∷ [])
      then some video
      else if one_of ext
          (codes "gif" ∷ codes "png" ∷ codes "jpg" ∷ codes "jpeg" ∷ codes "webp" ∷ codes "bmp" ∷ [])
      then some image
      else if one_of ext (codes "js" ∷ codes "mjs" ∷ [])
      then some js
      else none
]

-- `defaultContentType`
unfoldable pub default_content_type : Media → Text → Text
default_content_type js path = codes "application/javascript"
default_content_type image path =
    if has_suffix (to_lower path) (codes ".png") then codes "image/png" else codes "image/gif"
default_content_type video path =
    if has_suffix (to_lower path) (codes ".webm")
    then codes "video/webm"
    else if has_suffix (to_lower path) (codes ".m3u8")
    then codes "application/vnd.apple.mpegurl"
    else if has_suffix (to_lower path) (codes ".mpd")
    then codes "application/dash+xml"
    else if has_suffix (to_lower path) (codes ".ts")
    then codes "video/mp2t"
    else codes "video/mp4"
default_content_type binary path = codes "application/octet-stream"

-- `defaultLength`
unfoldable pub default_length : Media → ℕ
default_length js = 256
default_length image = length gif1x1
default_length binary = 1024
default_length video = 1024
