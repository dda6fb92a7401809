-- ===== src/Ftp/World/Transfers.antt =====
-- The commands of src/ftp_server.cpp that work on files, and the temporary root.
use mock_services.Base.{
  ℕ, Bool, true, false, if_split, Option, none, some, List, Text, if◌then◌else◌,
}
use mock_services.Net.{RawSocket}
use mock_services.Ftp.World.Confined.{
  IsConfined, EffectWithin, emit-IsConfined, reply-IsConfined, require_auth-IsConfined,
  require_perm-IsConfined, require_arg-IsConfined, with_path-IsConfined, close_pasv-IsConfined,
}
use mock_services.Ftp.World.Within.{Within}
use mock_services.Ftp.Listing.{dir_listing}
use mock_services.Ftp.Session.{
  Conn, Effect, Permission, sent, closed, listed, opened, created, emit, require_auth, require_perm,
  close_pasv,
}
use mock_services.Ftp.Commands.{
  System, after_accept, with_data, transfer_on, with_path, resolve_for, require_arg, send_listing,
  list_cmd, send_file, store_file, file_call,
}

module _ {root : Text} where
  after_accept-IsConfined : (c : Conn) → IsConfined root c → IsConfined root (after_accept c)
  unfolding after_accept
  after_accept-IsConfined c h = split c.client.data_sock
    where
      split :
          (sock : RawSocket)
          → IsConfined root
              (elim sock [ none ↦ c | some _ ↦ if c.client.pasv then close_pasv c else c ])
      split none = h
      split (some sock) =
          if_split (IsConfined root) c.client.pasv _ _ (λ _. close_pasv-IsConfined c h) (λ _. h)

  with_data-IsConfined :
      (sock : RawSocket) (transfer : ℕ → Conn → Conn) (c : Conn)
      → ((k : ℕ) (d : Conn) → IsConfined root d → IsConfined root (transfer k d))
      → IsConfined root c
      → IsConfined root (with_data sock transfer c)
  unfolding with_data
  with_data-IsConfined none transfer c h k = reply-IsConfined _ c k
  with_data-IsConfined (some sock) transfer c h k = h sock c k

  pub transfer_on-IsConfined :
      (os : System) (transfer : ℕ → Conn → Conn) (c : Conn)
      → ((k : ℕ) (d : Conn) → IsConfined root d → IsConfined root (transfer k d))
      → IsConfined root c
      → IsConfined root (transfer_on os transfer c)
  unfolding transfer_on
  transfer_on-IsConfined os transfer c h k =
      with_data-IsConfined _ transfer _ h (after_accept-IsConfined _ (reply-IsConfined _ c k))

  -- An effect on the data connection of a transfer.
  data_effect :
      (sock : ℕ) (bytes : List ℕ) (e : Effect) (c : Conn)
      → EffectWithin root e
      → IsConfined root c
      → IsConfined root (emit (closed sock) (emit (sent sock bytes) (emit e c)))
  data_effect sock bytes e c h k =
      emit-IsConfined (closed sock) _ tt
        (emit-IsConfined (sent sock bytes) _ tt (emit-IsConfined e c h k))

  pub list-IsConfined :
      (os : System) (arg : Text) (c : Conn)
      → IsConfined root c
      → IsConfined root (list_cmd os arg c)
  unfolding list_cmd send_listing
  list-IsConfined os arg c h =
      require_auth-IsConfined _ c
        (λ auth.
          require_perm-IsConfined _ _ c
            (with_path-IsConfined _ arg _ c auth
              (λ path within.
                transfer_on-IsConfined os _ c
                  (λ k d h'. reply-IsConfined _ _ (
                    data_effect k (dir_listing os.local (os.entries path)) (listed path) d within
                      h'))
                  h)
              h)
            h)
        h

  pub send_file-IsConfined :
      (found : Option (List ℕ)) (path : Text) (k : ℕ) (c : Conn)
      → Within root path
      → IsConfined root c
      → IsConfined root (send_file found path k c)
  unfolding send_file
  send_file-IsConfined none path k c w h = reply-IsConfined _ _ (emit-IsConfined (closed k) c tt h)
  send_file-IsConfined (some bytes) path k c w h =
      reply-IsConfined _ _ (data_effect k bytes (opened path) c w h)

  pub store_file-IsConfined :
      (os : System) (path : Text) (k : ℕ) (c : Conn)
      → Within root path
      → IsConfined root c
      → IsConfined root (store_file os path k c)
  unfolding store_file
  store_file-IsConfined os path k c w h =
      if_split (IsConfined root) (os.can_create path) _ _
        (λ _.
          reply-IsConfined _ _
            (emit-IsConfined (closed k) _ tt (emit-IsConfined (created path os.received) c w h)))
        (λ _. reply-IsConfined _ _ (emit-IsConfined (closed k) c tt h))

  -- The shape of the commands that work on the path of an argument.
  pub path_command :
      (need : Permission) (refusal arg : Text) (rest : Text → Conn → Conn) (c : Conn)
      → ((p : Text) → Within root p → IsConfined root (rest p c))
      → IsConfined root c
      → IsConfined root (
          require_auth
            (require_perm need (require_arg arg λ d. with_path refusal (resolve_for d arg) rest d))
            c)
  path_command need refusal arg rest c h k =
      require_auth-IsConfined _ c
        (λ auth.
          require_perm-IsConfined need _ c
            (require_arg-IsConfined arg _ c (with_path-IsConfined refusal arg rest c auth h k) k) k)
        k

  pub file_call-IsConfined :
      (done : Bool) (effect : Effect) (success failure : Text) (c : Conn)
      → EffectWithin root effect
      → IsConfined root c
      → IsConfined root (file_call done effect success failure c)
  unfolding file_call
  file_call-IsConfined true effect success failure c w h =
      reply-IsConfined success _ (emit-IsConfined effect c w h)
  file_call-IsConfined false effect success failure c w h = reply-IsConfined failure c h
