-- ===== src/Memory/Sampling.antt =====
-- internal/storage/v2/memory/sampling.go: the store of sampling data. The contents of a
-- throughput, of the probabilities and of the rates are not read here, so they are parameters; so
-- is the time of a call, which is `time.Now()` in the source.
use jaeger.Prelude.{
  ℕ, String, List, [], ◌∷◌, ◌++◌, Option, none, some, ltb, length, take, ◌&&◌, if◌then◌else◌,
}
use jaeger.Prelude.Int.{ℤ, ltb_ℤ, leb_ℤ}

pub record StoredThroughput (Throughput : Type 0) : Type 0 where
  pub throughput : List Throughput
  pub time : ℤ

-- storedServiceOperationProbabilitiesAndQPS
pub record StoredProbabilities (Probabilities Qps : Type 0) : Type 0 where
  pub hostname : String
  pub probabilities : Probabilities
  pub qps : Qps
  pub time : ℤ

pub record SamplingStore (Throughput Probabilities Qps : Type 0) : Type 0 where
  pub throughputs : List (StoredThroughput Throughput)
  pub probabilities_and_qps : Option (StoredProbabilities Probabilities Qps)
  pub max_buckets : ℕ

-- The loop of GetThroughput.
unfoldable pub throughput_between : {T : Type 0} → ℤ → ℤ → List (StoredThroughput T) → List T
throughput_between start finish [] = []
throughput_between start finish (x ∷ xs) =
    let rest = throughput_between start finish xs in
    if ltb_ℤ start x.time && leb_ℤ x.time finish then x.throughput ++ rest else rest

module _ {T P Q : Type 0} where
  -- NewSamplingStore
  unfoldable pub new_sampling_store : ℕ → SamplingStore T P Q
  new_sampling_store max_buckets = record {
    throughputs = [];
    probabilities_and_qps = none;
    max_buckets = max_buckets;
  }

  -- preprendThroughput
  unfoldable pub prepend_throughput : StoredThroughput T → SamplingStore T P Q → SamplingStore T P Q
  prepend_throughput x ss =
      let longer = x ∷ ss.throughputs in
      record ss {
        throughputs =
            if ltb ss.max_buckets (length longer) then take ss.max_buckets longer else longer;
      }

  -- InsertThroughput
  unfoldable pub insert_throughput : ℤ → List T → SamplingStore T P Q → SamplingStore T P Q
  unfolding prepend_throughput
  insert_throughput now throughput =
      prepend_throughput (record { throughput = throughput; time = now })

  -- GetThroughput
  unfoldable pub get_throughput : ℤ → ℤ → SamplingStore T P Q → List T
  unfolding throughput_between
  get_throughput start finish ss = throughput_between start finish ss.throughputs

  -- InsertProbabilitiesAndQPS
  unfoldable pub insert_probabilities_and_qps :
      ℤ → String → P → Q → SamplingStore T P Q → SamplingStore T P Q
  insert_probabilities_and_qps now hostname probabilities qps ss = record ss {
    probabilities_and_qps =
        some (record { hostname = hostname; probabilities = probabilities; qps = qps; time = now });
  }

  -- GetLatestProbabilities; `no_probabilities` is the empty value of their type.
  unfoldable pub get_latest_probabilities : P → SamplingStore T P Q → P
  get_latest_probabilities no_probabilities ss = elim ss.probabilities_and_qps [
    | none ↦ no_probabilities
    | some p ↦ p.probabilities
  ]
