-- ===== src/Repository/Server.antt =====
-- What the repository relies on of the API server and its client: updates carry the version that
-- was read, and a stale version is refused.
use cluster_api_provider_tar.Base.{
  String, ◌≡◌, ◌≢◌, ◌⊎◌, Option, some, comparable_nat, comparable_text, comparable_list,
}
use cluster_api_provider_tar.Base.Result.{Result, ok}
use cluster_api_provider_tar.Api.Host.{TartHost}

pub data UpdateOutcome : Type 0 where
  updated : TartHost → UpdateOutcome
  conflict : UpdateOutcome
  failed : String → UpdateOutcome

-- A written host differs from the request in its version only.
pub record SameContent (a b : TartHost) : Type 0 where
  pub same_name : a.name ≡ b.name
  pub same_labels : a.labels ≡ b.labels
  pub same_spec : a.spec ≡ b.spec
  pub same_status : a.status ≡ b.status

pub record ApiServer : Type 1 where
  pub State : Type 0
  pub stored : State → String → Option TartHost
  -- Other clients' writes, until the server takes the next request. Nothing is assumed of them.
  pub settle : State → State
  pub put : State → TartHost → State × UpdateOutcome
  pub fetch : State → String → Result String TartHost
  -- The objects that the server has stored at some time.
  pub Seen : State → TartHost → Type 0
  pub seen_stored : (s : State) (n : String) (h : TartHost) → stored s n ≡ some h → Seen s h
  pub seen_settle : (s : State) (h : TartHost) → Seen s h → Seen (settle s) h
  -- A version is given to one content only.
  pub version_identifies :
      (s : State) (g h : TartHost)
      → Seen s g
      → stored s g.name ≡ some h
      → g.resource_version ≡ h.resource_version
      → g ≡ h
  -- A read gives an object of that name as it was stored at some time: it may come from a cache.
  pub fetch_seen :
      (s : State) (n : String) (h : TartHost) → fetch s n ≡ ok h → Seen s h × (h.name ≡ n)
  pub stored_name : (s : State) (n : String) (h : TartHost) → stored s n ≡ some h → h.name ≡ n
  -- An update is written over the version that it carries, and only over that.
  pub put_updated :
      (s s' : State) (h h' : TartHost)
      → put s h ≡ (s', updated h')
      → (current : TartHost) × (stored s h.name ≡ some current)
        × (current.resource_version ≡ h.resource_version)
        × (stored s' h.name ≡ some h')
        × SameContent h' h
  -- An update that is refused for its version changes nothing.
  pub put_conflict : (s s' : State) (h : TartHost) → put s h ≡ (s', conflict) → s' ≡ s
  -- After any other error, a timeout for instance, the update may have been written or not.
  pub put_failed :
      (s s' : State) (h : TartHost) (e : String)
      → put s h ≡ (s', failed e)
      → (s' ≡ s)
        ⊎ ((h' : TartHost) × (current : TartHost) × (stored s h.name ≡ some current)
            × (current.resource_version ≡ h.resource_version)
            × (stored s' h.name ≡ some h')
            × SameContent h' h)
  -- An update concerns the object of its name only.
  pub put_others :
      (s s' : State) (h : TartHost) (r : UpdateOutcome) (n : String)
      → put s h ≡ (s', r)
      → n ≢ h.name
      → stored s' n ≡ stored s n
