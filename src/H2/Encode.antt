-- ===== src/H2/Encode.antt =====
-- h2.py read backwards: frames and settings as bytes.
use foxreq.Prelude.{ℕ, ◌≡◌, ◌<◌, List, ◌++◌, map}
use foxreq.Prelude.Lists.{length, join}
use foxreq.Prelude.Bytes.{to_big}
use foxreq.Model.{H2Frame, Setting}

abbrev pub frame_bytes : H2Frame → List ℕ
frame_bytes f =
    to_big 3 f.length
    ++ (to_big 1 f.type_id ++ (to_big 1 f.flags ++ (to_big 4 f.stream_id ++ f.payload)))

abbrev pub frame_list : List H2Frame → List ℕ
frame_list fs = join (map frame_bytes fs)

-- The top bit of the stream identifier is reserved.
pub record IsFrame (f : H2Frame) : Type 0 where
  pub size : length f.payload ≡ f.length
  pub size_fits : f.length < 16777216
  pub type_fits : f.type_id < 256
  pub flags_fit : f.flags < 256
  pub stream_fits : f.stream_id < 2147483648

abbrev pub setting_bytes : Setting → List ℕ
setting_bytes s = to_big 2 s.identifier ++ to_big 4 s.value

abbrev pub setting_list : List Setting → List ℕ
setting_list ss = join (map setting_bytes ss)

pub record IsSetting (s : Setting) : Type 0 where
  pub identifier_fits : s.identifier < 65536
  pub value_fits : s.value < 4294967296

abbrev pub identifiers : List Setting → List ℕ
identifiers = map λ s. s.identifier
