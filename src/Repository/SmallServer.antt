-- ===== src/Repository/SmallServer.antt =====
-- A small server with one host. Until its first request is handled, another client relabels the
-- host, so the first update conflicts and the second goes through.

use cluster_api_provider_tar.Base.Result.{Result, ok, err}
use cluster_api_provider_tar.Repository.Server.{
  UpdateOutcome, updated, conflict, failed, ApiServer, SameContent,
}
use cluster_api_provider_tar.Api.Samples.{sample_host}
use cluster_api_provider_tar.Base.{
  [], ◌∷◌, comparable_nat, comparable_text, comparable_list, String, Bool, Option, ◌≡◌, ◌≢◌, inl,
  ◌==◌, ◌⊎◌, some, ◌&&◌, arith, false, eq_iff, if◌then◌else◌, none,
}
use cluster_api_provider_tar.Api.Host.{TartHost, TartHostSpec}

pub data Phase : Type 0 where
  fresh relabelled : Phase
  taken : TartHost → Phase

module _ (spec : TartHostSpec) where
  abbrev pub first : TartHost
  first = record sample_host { spec = spec }

  abbrev pub second : TartHost
  second = record sample_host { spec = spec; resource_version = "2"; labels = ("rack", "a") ∷ [] }

  abbrev pub third : TartHost → TartHost
  third h = record h { resource_version = "3"; name = "host-a" }

  abbrev pub content : Phase → TartHost
  content fresh = first
  content relabelled = second
  content (taken h) = third h

  abbrev pub stored_in : Phase → String → Option TartHost
  stored_in p n = if n == "host-a" then some (content p) else none

  abbrev pub settled_phase : Phase → Phase
  settled_phase fresh = relabelled
  settled_phase p = p

  abbrev pub is_current : Phase → TartHost → Bool
  is_current fresh h = h.resource_version == "1" && h.name == "host-a"
  is_current relabelled h = h.resource_version == "2" && h.name == "host-a"
  is_current (taken g) h = false

  abbrev pub put_in : Phase → TartHost → Phase × UpdateOutcome
  put_in p h = if is_current p h then (taken h, updated (third h)) else (p, conflict)

  abbrev pub not_found : Option TartHost → Result String TartHost
  not_found none = err "not found"
  not_found (some h) = ok h

  abbrev pub SeenIn : Phase → TartHost → Type 0
  SeenIn fresh h = h ≡ first
  SeenIn relabelled h = (h ≡ first) ⊎ (h ≡ second)
  SeenIn (taken g) h = (h ≡ first) ⊎ (h ≡ second) ⊎ (h ≡ third g)

  pub seen_stored_in : (p : Phase) (n : String) (h : TartHost) → stored_in p n ≡ some h → SeenIn p h
  seen_stored_in fresh n h e = ground arith
  seen_stored_in relabelled n h e = ground arith
  seen_stored_in (taken g) n h e = ground arith

  pub seen_settle_in : (p : Phase) (h : TartHost) → SeenIn p h → SeenIn (settled_phase p) h
  seen_settle_in fresh h e = inl e
  seen_settle_in relabelled h e = e
  seen_settle_in (taken g) h e = e

  pub version_identifies_in :
      (p : Phase) (g h : TartHost)
      → SeenIn p g
      → stored_in p g.name ≡ some h
      → g.resource_version ≡ h.resource_version
      → g ≡ h
  version_identifies_in fresh g h e k v = ground arith
  version_identifies_in relabelled g h e k v = ground (arith, eq_iff "1" "2")
  version_identifies_in (taken f) g h e k v = ground (arith, eq_iff "1" "3", eq_iff "2" "3")

  pub put_updated_in :
      (p p' : Phase) (h h' : TartHost)
      → put_in p h ≡ (p', updated h')
      → (current : TartHost) × (stored_in p h.name ≡ some current)
        × (current.resource_version ≡ h.resource_version)
        × (stored_in p' h.name ≡ some h')
        × SameContent h' h
  put_updated_in fresh p' h h' e = (
    first,
    ground (arith, eq_iff h.name "host-a", eq_iff h.resource_version "1"),
    ground (arith, eq_iff h.name "host-a", eq_iff h.resource_version "1"),
    ground (arith, eq_iff h.name "host-a", eq_iff h.resource_version "1"),
    record {
      same_name = ground (arith, eq_iff h.name "host-a", eq_iff h.resource_version "1");
      same_labels = ground (arith, eq_iff h.name "host-a", eq_iff h.resource_version "1");
      same_spec = ground (arith, eq_iff h.name "host-a", eq_iff h.resource_version "1");
      same_status = ground (arith, eq_iff h.name "host-a", eq_iff h.resource_version "1");
    },
  )
  put_updated_in relabelled p' h h' e = (
    second,
    ground (arith, eq_iff h.name "host-a", eq_iff h.resource_version "2"),
    ground (arith, eq_iff h.name "host-a", eq_iff h.resource_version "2"),
    ground (arith, eq_iff h.name "host-a", eq_iff h.resource_version "2"),
    record {
      same_name = ground (arith, eq_iff h.name "host-a", eq_iff h.resource_version "2");
      same_labels = ground (arith, eq_iff h.name "host-a", eq_iff h.resource_version "2");
      same_spec = ground (arith, eq_iff h.name "host-a", eq_iff h.resource_version "2");
      same_status = ground (arith, eq_iff h.name "host-a", eq_iff h.resource_version "2");
    },
  )
  put_updated_in (taken g) p' h h' e = absurd (ground arith)

  pub put_refused_in : (p p' : Phase) (h : TartHost) → put_in p h ≡ (p', conflict) → p' ≡ p
  put_refused_in p p' h e = ground arith

  pub put_failed_in :
      (p p' : Phase) (h : TartHost) (x : String)
      → put_in p h ≡ (p', failed x)
      → (p' ≡ p)
        ⊎ ((h' : TartHost) × (current : TartHost) × (stored_in p h.name ≡ some current)
            × (current.resource_version ≡ h.resource_version)
            × (stored_in p' h.name ≡ some h')
            × SameContent h' h)
  put_failed_in p p' h x e = inl (ground arith)

  pub put_others_in :
      (p p' : Phase) (h : TartHost) (r : UpdateOutcome) (n : String)
      → put_in p h ≡ (p', r)
      → n ≢ h.name
      → stored_in p' n ≡ stored_in p n
  put_others_in fresh p' h r n e d = ground (arith, eq_iff h.name "host-a", eq_iff n "host-a")
  put_others_in relabelled p' h r n e d = ground (arith, eq_iff h.name "host-a", eq_iff n "host-a")
  put_others_in (taken g) p' h r n e d = ground arith

  pub stored_name_in : (p : Phase) (n : String) (h : TartHost) → stored_in p n ≡ some h → h.name ≡ n
  stored_name_in fresh n h e = ground (arith, eq_iff n "host-a")
  stored_name_in relabelled n h e = ground (arith, eq_iff n "host-a")
  stored_name_in (taken g) n h e = ground (arith, eq_iff n "host-a")

  pub fetch-SeenIn :
      (p : Phase) (n : String) (h : TartHost)
      → not_found (stored_in p n) ≡ ok h
      → SeenIn p h × (h.name ≡ n)
  fetch-SeenIn p n h e =
      let at_name : stored_in p n ≡ some h = ground arith in
      (seen_stored_in p n h at_name, stored_name_in p n h at_name)

  abbrev pub small_server : ApiServer
  small_server = record {
    State = Phase;
    stored = stored_in;
    settle = settled_phase;
    put = put_in;
    fetch = λ p n. not_found (stored_in p n);
    Seen = SeenIn;
    seen_stored = seen_stored_in;
    seen_settle = seen_settle_in;
    version_identifies = version_identifies_in;
    fetch_seen = fetch-SeenIn;
    stored_name = stored_name_in;
    put_updated = put_updated_in;
    put_conflict = put_refused_in;
    put_failed = put_failed_in;
    put_others = put_others_in;
  }
