-- ===== src/Sftp/Owners/Tests.antt =====
-- The theorem on the owners of src/sftp_handlers.cpp and src/sftp_server.cpp at concrete objects.
use mock_services.Base.{◌+◌, ◌≡◌, some, List, [], ◌∷◌}
use mock_services.Sftp.Listener.Ledger.{count}
use mock_services.Sftp.Owners.{
  bind, owner_of, Use, made_of, moved_from, assigned, given_up, Store, use_objects, end_scope,
  no_objects,
}
use mock_services.Sftp.Owners.Settled.{owned, use_objects-settles}

-- Two handles, of which the one is moved over the other, that is moved on and given up.
abbrev uses : List Use
uses =
    made_of (some 7)
    ∷ made_of (some 8)
    ∷ assigned 0 1
    ∷ assigned 0 0
    ∷ moved_from 0
    ∷ given_up 2
    ∷ []

abbrev used : Store
used = use_objects (owner_of bind) uses no_objects

abbrev left : Store
left = end_scope (owner_of bind) used

use_objects-settles_example :
    (count 7 used.made ≡ owned 7 used.objects + count 7 used.freed + count 7 used.released)
    × (count 7 left.made ≡ count 7 left.freed + count 7 left.released)
use_objects-settles_example = use_objects-settles bind uses 7
