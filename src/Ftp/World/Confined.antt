-- ===== src/Ftp/World/Confined.antt =====
-- Where the commands of src/ftp_server.cpp touch the file system.
use mock_services.Base.{
  ◌≡◌, ◌⊎◌, inl, inr, true, if_split, none, some, [], ◌∷◌, All, All-append, Text,
}
use mock_services.Net.{RawSocket}
use mock_services.Ftp.World.Within.{Within, resolve-Within}
use mock_services.Ftp.Session.{
  Conn, Client, Effect, Permission, sent, shut, closed, listed, opened, created, unlinked, removed,
  made, emit, ftp_send, reply, require_auth, require_perm, allows, close_data, close_pasv,
}
use mock_services.Ftp.Commands.{with_path, resolve_for, require_arg}

-- The paths of an effect on the file system are within the root.
abbrev pub EffectWithin : Text → Effect → Type 0
EffectWithin root (listed path) = Within root path
EffectWithin root (opened path) = Within root path
EffectWithin root (created path bytes) = Within root path
EffectWithin root (unlinked path) = Within root path
EffectWithin root (removed path) = Within root path
EffectWithin root (made path) = Within root path
EffectWithin root (sent sock bytes) = Unit
EffectWithin root (shut sock) = Unit
EffectWithin root (closed sock) = Unit

-- A client that is logged in has a root of its own within the temporary root.
abbrev pub ClientWithin : Text → Client → Type 0
ClientWithin root client = client.auth ≡ true → Within root client.phy_root

pub record IsConfined (root : Text) (c : Conn) : Type 0 where
  pub root_kept : c.server.temp_root ≡ root
  pub client_within : ClientWithin root c.client
  pub effects_within : All (EffectWithin root) c.server.effects

-- One effect more, and a client changed without leaving its root.
pub emit-IsConfined :
    {root : Text} (e : Effect) (c : Conn)
    → EffectWithin root e
    → IsConfined root c
    → IsConfined root (emit e c)
emit-IsConfined {root} e c h k = record {
  root_kept = k.root_kept;
  client_within = k.client_within;
  effects_within =
      All-append (EffectWithin root) c.server.effects (e ∷ []) k.effects_within (h, tt);
}

pub set_client-IsConfined :
    {root : Text} (client : Client) (c : Conn)
    → ClientWithin root client
    → IsConfined root c
    → IsConfined root (record c { client = client })
set_client-IsConfined client c h k = record {
  root_kept = k.root_kept;
  client_within = h;
  effects_within = k.effects_within;
}

pub send-IsConfined :
    {root : Text} (sock : RawSocket) (msg : Text) (c : Conn)
    → IsConfined root c
    → IsConfined root (ftp_send sock msg c)
unfolding ftp_send
send-IsConfined none msg c h = h
send-IsConfined (some sock) msg c h = emit-IsConfined (sent sock msg) c tt h

pub reply-IsConfined :
    {root : Text} (msg : Text) (c : Conn) → IsConfined root c → IsConfined root (reply msg c)
reply-IsConfined msg c h = send-IsConfined c.client.sock msg c h

pub require_auth-IsConfined :
    {root : Text} (rest : Conn → Conn) (c : Conn)
    → (c.client.auth ≡ true → IsConfined root (rest c))
    → IsConfined root c
    → IsConfined root (require_auth rest c)
unfolding require_auth
require_auth-IsConfined {root} rest c h k =
    if_split (IsConfined root) c.client.auth _ _ h λ _. reply-IsConfined _ c k

pub require_perm-IsConfined :
    {root : Text} (need : Permission) (rest : Conn → Conn) (c : Conn)
    → IsConfined root (rest c)
    → IsConfined root c
    → IsConfined root (require_perm need rest c)
unfolding require_perm
require_perm-IsConfined {root} need rest c h k =
    if_split (IsConfined root) (allows c.client.perm need) _ _ (λ _. h) λ _. reply-IsConfined _ c k

pub require_arg-IsConfined :
    {root : Text} (arg : Text) (rest : Conn → Conn) (c : Conn)
    → IsConfined root (rest c)
    → IsConfined root c
    → IsConfined root (require_arg arg rest c)
unfolding require_arg
require_arg-IsConfined [] rest c h k = reply-IsConfined _ c k
require_arg-IsConfined (b ∷ arg) rest c h k = h

with_path_cases :
    {root : Text} (refusal path : Text) (rest : Text → Conn → Conn) (c : Conn)
    → (path ≡ []) ⊎ Within root path
    → ((p : Text) → Within root p → IsConfined root (rest p c))
    → IsConfined root c
    → IsConfined root (with_path refusal path rest c)
unfolding with_path
with_path_cases refusal [] rest c w h k = reply-IsConfined refusal c k
with_path_cases refusal (b ∷ path) rest c (inl e) h k = cc
with_path_cases refusal (b ∷ path) rest c (inr w) h k = h (b ∷ path) w

-- A path that a command resolves for a client that is logged in.
pub with_path-IsConfined :
    {root : Text} (refusal arg : Text) (rest : Text → Conn → Conn) (c : Conn)
    → c.client.auth ≡ true
    → ((p : Text) → Within root p → IsConfined root (rest p c))
    → IsConfined root c
    → IsConfined root (with_path refusal (resolve_for c arg) rest c)
with_path-IsConfined refusal arg rest c auth h k =
    with_path_cases refusal _ rest c
      (resolve-Within _ c.client.phy_root c.client.cwd arg (k.client_within auth)) h k

pub close_data-IsConfined :
    {root : Text} (sock : RawSocket) (c : Conn)
    → IsConfined root c
    → IsConfined root (close_data sock c)
unfolding close_data
close_data-IsConfined none c h = h
close_data-IsConfined (some sock) c h = emit-IsConfined (closed sock) c tt h

pub close_pasv-IsConfined :
    {root : Text} (c : Conn) → IsConfined root c → IsConfined root (close_pasv c)
unfolding close_pasv
close_pasv-IsConfined c h =
    let k = close_data-IsConfined c.client.data_sock c h in
    set_client-IsConfined _ (close_data c.client.data_sock c) k.client_within k
