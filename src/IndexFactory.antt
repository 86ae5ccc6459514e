-- ===== src/IndexFactory.antt =====
-- CreateIndex (index/baselines/IndexFactory.h): the index that a configuration asks for.

use vecodex.Prelude.{ℕ, Bool, Option, none, some, List, [], ◌∷◌, Key, lookup, ite, ◌>>=◌}
use vecodex.EtcdClient.{Text}
use vecodex.BootstrapConfig.{
  JsonLib, string_field, index_type, library, dim, threshold, metric, enable_merge, hnsw_m,
}

-- faiss::MetricType, as far as it is used.
pub data MetricType : Type 0 where
  metric_l1 metric_l2 metric_linf : MetricType

-- The faiss index: IndexFlat, or IndexHNSWFlat with its number of links.
pub data Kind : Type 0 where
  flat : Kind
  hnsw : ℕ → Kind

-- What the constructor of Index and the factory of its segments are given.
pub record IndexArgs : Type 0 where
  pub kind : Kind
  pub dim : ℕ
  pub threshold : ℕ
  pub enable_merge : Bool
  pub metric : MetricType

-- "faissFlat", "faissHNSWFlat" and "faiss"
abbrev pub faiss : Text
faiss = 102 ∷ 97 ∷ 105 ∷ 115 ∷ 115 ∷ []

abbrev pub faiss_flat : Text
faiss_flat = 102 ∷ 97 ∷ 105 ∷ 115 ∷ 115 ∷ 70 ∷ 108 ∷ 97 ∷ 116 ∷ []

abbrev pub faiss_hnsw_flat : Text
faiss_hnsw_flat = 102 ∷ 97 ∷ 105 ∷ 115 ∷ 115 ∷ 72 ∷ 78 ∷ 83 ∷ 87 ∷ 70 ∷ 108 ∷ 97 ∷ 116 ∷ []

-- The names "L1", "L2" and "Linf".
abbrev pub faiss_metric_map : List (Text × MetricType)
faiss_metric_map =
    (76 ∷ 49 ∷ [], metric_l1)
    ∷ (76 ∷ 50 ∷ [], metric_l2)
    ∷ (76 ∷ 105 ∷ 110 ∷ 102 ∷ [], metric_linf)
    ∷ []

module _ (J : JsonLib) ⦃e : Key Text⦄ where
  -- The three branches over the type.
  unfoldable pub create_faiss : J.Json → Text → (Kind → IndexArgs) → Option IndexArgs
  create_faiss json type args = ite (e.dec type faiss_flat) (some (args flat)) (
      ite (e.dec type faiss_hnsw_flat)
        (J.field hnsw_m json >>= J.as_int >>= (λ links. some (args (hnsw links)))) none)

  -- `none` is an exception, or a field that the constant object does not have.
  unfoldable pub create_index : J.Json → Option IndexArgs
  unfolding create_faiss
  create_index json = do
    type ← string_field J index_type json
    lib ← string_field J library json
    dim_value ← J.field dim json >>= J.as_int
    threshold_value ← J.field threshold json >>= J.as_int
    metric_name ← string_field J metric json
    merge ← J.field enable_merge json >>= J.as_bool
    metric_type ← ite (e.dec lib faiss) (lookup metric_name faiss_metric_map) none
    create_faiss json type (λ kind. record {
      kind = kind;
      dim = dim_value;
      threshold = threshold_value;
      enable_merge = merge;
      metric = metric_type;
    })
