-- ===== src/Dashboard/Elsewhere.antt =====
-- The graphs of engines/jmeter/html-report/content/js/graph.js are drawn in different elements.
use p_loadtesting.Dashboard.Graphs.Spread.{
  response_time_percentiles_infos, response_time_distribution_infos,
  synthetic_response_time_distribution_infos,
}
use p_loadtesting.Dashboard.Graphs.Load.{
  active_threads_over_time_infos, bytes_throughput_over_time_infos,
}
use p_loadtesting.Dashboard.Graphs.Against.{
  time_vs_threads_infos, response_time_vs_request_infos, latencies_vs_request_infos,
}
use p_loadtesting.Dashboard.Graphs.Times.{
  response_times_over_time_infos, latencies_over_time_infos, connect_time_over_time_infos,
  response_time_percentiles_over_time_infos,
}
use p_loadtesting.Dashboard.Graphs.Rates.{
  hits_per_second_infos, codes_per_second_infos, transactions_per_second_infos, total_tps_infos,
}
use p_loadtesting.Prelude.{
  zero, suc, ℕ, String, ◌≡◌, ◌≢◌, refl, ap, sym, ◌∙◌, false, Option, none, some, List, [], ◌∷◌,
  str_eq, eq_iff, Bool-cases, inl, inr,
}
use p_loadtesting.Dashboard.Actions.{choose}
use p_loadtesting.Dashboard.Frames.{OnOption}
use p_loadtesting.Dashboard.Page.{
  Graph, response_time_percentiles, response_time_distribution,
  synthetic_response_time_distribution, active_threads_over_time, time_vs_threads,
  bytes_throughput_over_time, response_times_over_time, latencies_over_time, connect_time_over_time,
  response_time_percentiles_over_time, response_time_vs_request, latencies_vs_request,
  hits_per_second, codes_per_second, transactions_per_second, total_tps, index,
}
use p_loadtesting.Dashboard.Safety.{infos_of}
use p_loadtesting.Js.Number.{JsNumber}

-- The number of the graph that is drawn in an element.
abbrev drawn_in : String → Option ℕ
drawn_in id = choose id (
    ("flotResponseTimesPercentiles", 0)
    ∷ ("flotResponseTimeDistribution", 1)
    ∷ ("flotSyntheticResponseTimeDistribution", 2)
    ∷ ("flotActiveThreadsOverTime", 3)
    ∷ ("flotTimesVsThreads", 4)
    ∷ ("flotBytesThroughputOverTime", 5)
    ∷ ("flotResponseTimesOverTime", 6)
    ∷ ("flotLatenciesOverTime", 7)
    ∷ ("flotConnectTimeOverTime", 8)
    ∷ ("flotResponseTimePercentilesOverTime", 9)
    ∷ ("flotResponseTimeVsRequest", 10)
    ∷ ("flotLatenciesVsRequest", 11)
    ∷ ("flotHitsPerSecond", 12)
    ∷ ("flotCodesPerSecond", 13)
    ∷ ("flotTransactionsPerSecond", 14)
    ∷ ("flotTotalTPS", 15)
    ∷ [])

abbrev graph_at : ℕ → List Graph → Graph
graph_at n [] = total_tps
graph_at zero (g ∷ gs) = g
graph_at (suc n) (g ∷ gs) = graph_at n gs

abbrev of_index : ℕ → Graph
of_index n = graph_at n (
    response_time_percentiles ∷ response_time_distribution ∷ synthetic_response_time_distribution
    ∷ active_threads_over_time ∷ time_vs_threads ∷ bytes_throughput_over_time
    ∷ response_times_over_time ∷ latencies_over_time ∷ connect_time_over_time
    ∷ response_time_percentiles_over_time ∷ response_time_vs_request ∷ latencies_vs_request
    ∷ hits_per_second ∷ codes_per_second ∷ transactions_per_second ∷ total_tps ∷ [])

of_index-index : (g : Graph) → of_index (index g) ≡ g
of_index-index response_time_percentiles = refl
of_index-index response_time_distribution = refl
of_index-index synthetic_response_time_distribution = refl
of_index-index active_threads_over_time = refl
of_index-index time_vs_threads = refl
of_index-index bytes_throughput_over_time = refl
of_index-index response_times_over_time = refl
of_index-index latencies_over_time = refl
of_index-index connect_time_over_time = refl
of_index-index response_time_percentiles_over_time = refl
of_index-index response_time_vs_request = refl
of_index-index latencies_vs_request = refl
of_index-index hits_per_second = refl
of_index-index codes_per_second = refl
of_index-index transactions_per_second = refl
of_index-index total_tps = refl

pub index-injective : (g h : Graph) → index g ≡ index h → g ≡ h
index-injective g h e = sym (of_index-index g) ∙ (ap of_index e ∙ of_index-index h)

some-injective : {m n : ℕ} → some m ≡ some n → m ≡ n
some-injective e = cc e

module _ (Num : Type 0) ⦃num : JsNumber Num⦄ where
  drawn_in-flot : (g : Graph) → drawn_in (infos_of {Num = Num} g).flot ≡ some (index g)
  unfolding response_time_percentiles_infos response_time_distribution_infos
      synthetic_response_time_distribution_infos active_threads_over_time_infos
      time_vs_threads_infos bytes_throughput_over_time_infos response_times_over_time_infos
      latencies_over_time_infos connect_time_over_time_infos
      response_time_percentiles_over_time_infos response_time_vs_request_infos
      latencies_vs_request_infos hits_per_second_infos codes_per_second_infos
      transactions_per_second_infos total_tps_infos
  drawn_in-flot response_time_percentiles = refl
  drawn_in-flot response_time_distribution = refl
  drawn_in-flot synthetic_response_time_distribution = refl
  drawn_in-flot active_threads_over_time = refl
  drawn_in-flot time_vs_threads = refl
  drawn_in-flot bytes_throughput_over_time = refl
  drawn_in-flot response_times_over_time = refl
  drawn_in-flot latencies_over_time = refl
  drawn_in-flot connect_time_over_time = refl
  drawn_in-flot response_time_percentiles_over_time = refl
  drawn_in-flot response_time_vs_request = refl
  drawn_in-flot latencies_vs_request = refl
  drawn_in-flot hits_per_second = refl
  drawn_in-flot codes_per_second = refl
  drawn_in-flot transactions_per_second = refl
  drawn_in-flot total_tps = refl

  pub drawn_in-overview :
      (g : Graph) → OnOption (λ id. drawn_in id ≡ none) (infos_of {Num = Num} g).overview
  unfolding response_time_percentiles_infos response_time_distribution_infos
      synthetic_response_time_distribution_infos active_threads_over_time_infos
      time_vs_threads_infos bytes_throughput_over_time_infos response_times_over_time_infos
      latencies_over_time_infos connect_time_over_time_infos
      response_time_percentiles_over_time_infos response_time_vs_request_infos
      latencies_vs_request_infos hits_per_second_infos codes_per_second_infos
      transactions_per_second_infos total_tps_infos
  drawn_in-overview response_time_percentiles = refl
  drawn_in-overview response_time_distribution = tt
  drawn_in-overview synthetic_response_time_distribution = tt
  drawn_in-overview active_threads_over_time = refl
  drawn_in-overview time_vs_threads = refl
  drawn_in-overview bytes_throughput_over_time = refl
  drawn_in-overview response_times_over_time = refl
  drawn_in-overview latencies_over_time = refl
  drawn_in-overview connect_time_over_time = refl
  drawn_in-overview response_time_percentiles_over_time = refl
  drawn_in-overview response_time_vs_request = refl
  drawn_in-overview latencies_vs_request = refl
  drawn_in-overview hits_per_second = refl
  drawn_in-overview codes_per_second = refl
  drawn_in-overview transactions_per_second = refl
  drawn_in-overview total_tps = refl

  pub graph-infos_of : (g : Graph) → (infos_of {Num = Num} g).graph ≡ g
  unfolding response_time_percentiles_infos response_time_distribution_infos
      synthetic_response_time_distribution_infos active_threads_over_time_infos
      time_vs_threads_infos bytes_throughput_over_time_infos response_times_over_time_infos
      latencies_over_time_infos connect_time_over_time_infos
      response_time_percentiles_over_time_infos response_time_vs_request_infos
      latencies_vs_request_infos hits_per_second_infos codes_per_second_infos
      transactions_per_second_infos total_tps_infos
  graph-infos_of response_time_percentiles = refl
  graph-infos_of response_time_distribution = refl
  graph-infos_of synthetic_response_time_distribution = refl
  graph-infos_of active_threads_over_time = refl
  graph-infos_of time_vs_threads = refl
  graph-infos_of bytes_throughput_over_time = refl
  graph-infos_of response_times_over_time = refl
  graph-infos_of latencies_over_time = refl
  graph-infos_of connect_time_over_time = refl
  graph-infos_of response_time_percentiles_over_time = refl
  graph-infos_of response_time_vs_request = refl
  graph-infos_of latencies_vs_request = refl
  graph-infos_of hits_per_second = refl
  graph-infos_of codes_per_second = refl
  graph-infos_of transactions_per_second = refl
  graph-infos_of total_tps = refl

  -- The elements other than that of a graph.
  abbrev pub IsElsewhere : Graph → String → Type 0
  IsElsewhere g id = str_eq id (infos_of {Num = Num} g).flot ≡ false

  elsewhere : (g : Graph) (id : String) → drawn_in id ≢ some (index g) → IsElsewhere g id
  elsewhere g id h = elim (Bool-cases (str_eq id (infos_of {Num = Num} g).flot)) [
    | inl e ↦ absurd (h (ap drawn_in ((eq_iff id _).0 e) ∙ drawn_in-flot g))
    | inr e ↦ e
  ]

  pub flot-IsElsewhere :
      (g h : Graph) → index h ≢ index g → IsElsewhere g (infos_of {Num = Num} h).flot
  flot-IsElsewhere g h d = elsewhere g _ (λ e. d (some-injective (sym (drawn_in-flot h) ∙ e)))

  pub overview-IsElsewhere :
      (g : Graph) (id : Option String)
      → OnOption (λ o. drawn_in o ≡ none) id
      → OnOption (IsElsewhere g) id
  overview-IsElsewhere g none h = tt
  overview-IsElsewhere g (some id) h = elsewhere g id (λ e. cc (h, e))
