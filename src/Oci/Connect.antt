-- ===== src/Oci/Connect.antt =====
-- internal/oci/oci.go: buildTransport. The keychain of authn, the scope of a reference, and
-- transport.NewWithContext are parameters. R, A and T are the types of references, credentials and
-- transports.
use ocifuse.Prelude.{Option, none, some, List, [], ◌∷◌, Bytes, Result, ◌>>=◌, wrapped}
use ocifuse.DiskCache.{DiskCache}
use ocifuse.Oci.{Context}

-- http.DefaultTransport, or the caching transport over it.
pub data BaseTransport : Type 0 where
  default_transport : BaseTransport
  disk_caching : DiskCache → BaseTransport

-- With the name of the registry.
pub data ConnectError (E : Type 0) : Type 0 where
  auth_failed : Bytes → E → ConnectError E
  connect_failed : Bytes → E → ConnectError E

-- The cache is the one of SetCache, if there is one.
abbrev pub base_of : Option DiskCache → BaseTransport
base_of none = default_transport
base_of (some c) = disk_caching c

module _ {R A T E : Type 0} (context : R → Context) (pull_scope : R → Bytes)
    (resolve_auth : Context → Result E A)
    (new_with_context : Bytes → A → BaseTransport → List Bytes → Result E T) where
  unfoldable pub build_transport : Option DiskCache → R → Result (ConnectError E) T
  build_transport disk_cache ref =
      let registry = (context ref).registry in
      do
        auth ← wrapped (auth_failed registry) (resolve_auth (context ref))
        wrapped (connect_failed registry)
            (new_with_context registry auth (base_of disk_cache) (pull_scope ref ∷ []))
