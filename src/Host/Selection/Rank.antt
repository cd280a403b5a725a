-- ===== src/Host/Selection/Rank.antt =====
-- The order in which hosts are preferred.
use cluster_api_provider_tar.Base.{
  ℕ, String, ◌≡◌, false, List, arith, comparable_nat, comparable_text, comparable_list, codes,
  codes-injective,
}
use cluster_api_provider_tar.Base.Order.{lt_bytes_asym, lt_bytes_total, lt_bytes_weak}
use cluster_api_provider_tar.Base.Sort.{StrictWeakOrder}
use cluster_api_provider_tar.Api.Meta.{HostId}
use cluster_api_provider_tar.Api.Host.{TartHost}
use cluster_api_provider_tar.Host.Selection.{name_before, host_score, score_before, before}

name_before-order : StrictWeakOrder name_before
unfolding name_before
name_before-order = record {
  asym = λ a b h. lt_bytes_asym (codes a.name) (codes b.name) h;
  weak = λ a b c h k. lt_bytes_weak (codes a.name) (codes b.name) (codes c.name) h k;
}

module _ (sum256 : String → List ℕ) (print : HostId → String) (machine_uid : String) where
  score_before-order : StrictWeakOrder (score_before sum256 print machine_uid)
  unfolding score_before
  score_before-order = record {
    asym = λ a b h. ground (
      arith,
      lt_bytes_asym (host_score sum256 print machine_uid a.spec.host_id)
          (host_score sum256 print machine_uid b.spec.host_id),
      lt_bytes_asym (codes a.name) (codes b.name),
    );
    weak = λ a b c h k.
        let x = host_score sum256 print machine_uid a.spec.host_id in
        let y = host_score sum256 print machine_uid b.spec.host_id in
        let z = host_score sum256 print machine_uid c.spec.host_id in
        ground (
          arith,
          lt_bytes_weak x y z,
          lt_bytes_weak z y x,
          lt_bytes_weak y z x,
          lt_bytes_weak z x y,
          lt_bytes_weak x z y,
          lt_bytes_weak y x z,
          lt_bytes_asym x y,
          lt_bytes_asym y z,
          lt_bytes_asym x z,
          lt_bytes_weak (codes a.name) (codes b.name) (codes c.name),
        );
  }

  pub before-order : StrictWeakOrder (before sum256 print machine_uid)
  unfolding before
  before-order = record {
    asym = λ a b h. ground (arith, name_before-order.asym a b, score_before-order.asym a b);
    weak = λ a b c h k. ground (arith, name_before-order.weak a b c, score_before-order.weak a b c);
  }

  -- Two hosts of which neither comes first have the same name.
  pub before_total :
      (a b : TartHost)
      → before sum256 print machine_uid a b ≡ false
      → before sum256 print machine_uid b a ≡ false
      → a.name ≡ b.name
  unfolding before score_before name_before
  before_total a b h k =
      let x = host_score sum256 print machine_uid a.spec.host_id in
      let y = host_score sum256 print machine_uid b.spec.host_id in
      codes-injective a.name b.name (
        lt_bytes_total (codes a.name) (codes b.name) (ground (arith, lt_bytes_asym x y))
          (ground (arith, lt_bytes_asym x y)))
