-- ===== src/Matrix/Avatar.antt =====
-- pkg/matrix/signalling.go: the maps of `NewSignaller`, and `uploadAndSetAvatar`, which carries an avatar
-- from Discord's servers to the homeserver.
use matrix_discord_voice_bri.Base.{
  ℕ, zero, suc, ◌≤◌, ◌*◌, Option, none, some, List, [], ◌∷◌, if◌then◌else◌, length, take, arith,
  All, on_branches,
}
use matrix_discord_voice_bri.Base.Eq.{Bytes, ◌==◌, nat_eq}
use matrix_discord_voice_bri.Matrix.Signaller.{Signaller}

-- `NewSignaller`, once the application service is made.
abbrev pub new_signaller : Bytes → Bytes → Signaller
new_signaller server service = record {
  server_name = server;
  lk_jwt_service = service;
  active = [];
  profile_checked = [];
}

-- What the servers answer: the status of a download with its body, `none` for one that fails, and the
-- address that the homeserver gives an upload.
pub record AvatarEnv : Type 0 where
  pub get : Bytes → Option (ℕ × Option Bytes)
  pub upload : Bytes → Option Bytes

pub data AvatarRequest : Type 0 where
  get_avatar upload_media set_avatar_url : Bytes → AvatarRequest

-- The limit of `io.LimitReader`.
abbrev pub max_avatar : ℕ
max_avatar = 512 * 1024

abbrev pub uploaded : Option Bytes → List AvatarRequest
uploaded none = []
uploaded (some address) = set_avatar_url address ∷ []

abbrev pub body_read : AvatarEnv → Option Bytes → List AvatarRequest
body_read env none = []
body_read env (some body) =
    let image = take max_avatar body in upload_media image ∷ uploaded (env.upload image)

unfoldable pub downloaded : AvatarEnv → Option (ℕ × Option Bytes) → List AvatarRequest
downloaded env none = []
downloaded env (some (status, body)) = if status == 200 then body_read env body else []

-- `uploadAndSetAvatar`, with the requests that it makes.
unfoldable pub upload_and_set_avatar : AvatarEnv → Bytes → List AvatarRequest
upload_and_set_avatar env url = get_avatar url ∷ downloaded env (env.get url)

abbrev IsSmall : AvatarRequest → Type 0
IsSmall (get_avatar url) = Unit {0}
IsSmall (upload_media image) = length image ≤ max_avatar
IsSmall (set_avatar_url address) = Unit {0}

length-take_le : (n : ℕ) (xs : Bytes) → length (take n xs) ≤ n
length-take_le zero xs = omega arith
length-take_le (suc n) [] = omega arith
length-take_le (suc n) (x ∷ xs) = omega (arith, length-take_le n xs)

uploaded-IsSmall : (o : Option Bytes) → All IsSmall (uploaded o)
uploaded-IsSmall none = tt
uploaded-IsSmall (some address) = (tt, tt)

body_read-IsSmall : (env : AvatarEnv) (o : Option Bytes) → All IsSmall (body_read env o)
body_read-IsSmall env none = tt
body_read-IsSmall env (some body) =
    (length-take_le max_avatar body, uploaded-IsSmall (env.upload (take max_avatar body)))

downloaded-IsSmall :
    (env : AvatarEnv) (o : Option (ℕ × Option Bytes)) → All IsSmall (downloaded env o)
unfolding downloaded
downloaded-IsSmall env none = tt
downloaded-IsSmall env (some (status, body)) =
    on_branches {A = List AvatarRequest} (All IsSmall) (status == 200)
      (λ e. body_read-IsSmall env body) (λ e. tt)

-- Whatever the servers answer, no image over 512 KiB is uploaded.
pub upload_and_set_avatar-IsSmall :
    (env : AvatarEnv) (url : Bytes) → All IsSmall (upload_and_set_avatar env url)
unfolding upload_and_set_avatar
upload_and_set_avatar-IsSmall env url = (tt, downloaded-IsSmall env (env.get url))
