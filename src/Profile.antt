-- ===== src/Profile.antt =====
-- disguise/profile/profile.go: traffic profiles. A map is the list of its entries in the order in
-- which Go happens to range over it. Sizes are not negative, and durations are in nanoseconds.
pub mod Draws
mod Tests
use disguise.Common.{ℕ, ◌+◌, ◌-◌, ◌*◌, ◌%◌, ◌≡◌, List, [], ◌∷◌, Option, none, some, Bool, ltb, ◌==◌}
use disguise.Common.{if◌then◌else◌, Outcome, ok, ◌>>=◌, ◌>>◌, check, or_panic}
use disguise.Common.Int.{ℤ, pos, negsuc}
use disguise.Common.Floats.{Floats}

pub data TrafficType : Type 0 where
  web_browsing video_streaming file_download dynamic : TrafficType

-- The value of the Go constant.
abbrev pub iota : TrafficType → ℕ
iota web_browsing = 0
iota video_streaming = 1
iota file_download = 2
iota dynamic = 3

abbrev pub same_type : TrafficType → TrafficType → Bool
same_type a b = iota a == iota b

abbrev pub cell_header_len : ℕ
cell_header_len = 20

-- Reading a map.
unfoldable pub lookup {ℓ} : {V : Type ℓ} → TrafficType → List (TrafficType × V) → Option V
lookup t [] = none
lookup t ((u, v) ∷ m) = if same_type u t then some v else lookup t m

-- The two tests on a sample. Where `MaxCellSize` is below 20 the first makes the length
-- negative, and the second makes it 1.
unfoldable pub clamp : ℕ → ℤ → ℕ
clamp most (negsuc n) = 1
clamp most (pos n) =
    let length = if ltb (most - cell_header_len) n then most - cell_header_len else n in
    if ltb length 1 then 1 else length

module _ ⦃F : Floats⦄ where
  open F use {Float, constant, of_int, to_int, add, sub, mul, div, max, pow, lt, le}

  pub data Distribution : Type 0 where
    bimodal :
        (mode1_mean mode1_std_dev mode1_weight mode2_mean mode2_std_dev : Float) → Distribution
    pareto : (alpha xm : Float) → Distribution

  pub record Profile : Type 0 where
    pub min_cell_size : ℕ
    pub max_cell_size : ℕ
    pub probing_interval : ℕ
    pub latency_jitter : ℕ
    pub ewma_alpha : Float
    pub traffic_weights : List (TrafficType × Float)
    pub payload_distributions : List (TrafficType × Distribution)
    pub current_load : Float

  -- What `GetNextPayloadLength` takes from math/rand: the Float64 that picks a traffic type, and
  -- the Float64 and the NormFloat64 of the sample.
  pub record LengthDraws : Type 0 where
    pub choice : Float
    pub uniform : Float
    pub normal : Float

  unfoldable pub sample : Distribution → LengthDraws → ℤ
  sample (bimodal m1 s1 w m2 s2) d =
      if lt d.uniform w
      then to_int (max (of_int 1) (add (mul d.normal s1) m1))
      else to_int (max (of_int 1) (add (mul d.normal s2) m2))
  sample (pareto alpha xm) d =
      to_int (max (of_int 1) (div xm (pow d.uniform (div (of_int 1) alpha))))

  abbrev web_distribution : Distribution
  web_distribution =
      bimodal (constant 100 0) (constant 20 0) (constant 8 1) (constant 1000 0) (constant 150 0)

  abbrev video_distribution : Distribution
  video_distribution =
      bimodal (constant 64 0) (constant 10 0) (constant 2 1) (constant 1300 0) (constant 50 0)

  abbrev file_distribution : Distribution
  file_distribution = pareto (constant 15 1) (constant 500 0)

  abbrev milliseconds : ℕ → ℕ
  milliseconds n = n * 1000000

  abbrev seconds : ℕ → ℕ
  seconds n = milliseconds (n * 1000)

  unfoldable pub get_profile : TrafficType → Profile
  get_profile web_browsing = record {
    min_cell_size = 64;
    max_cell_size = 1400;
    probing_interval = seconds 15;
    latency_jitter = milliseconds 20;
    ewma_alpha = constant 1 1;
    traffic_weights = (web_browsing, constant 10 1) ∷ [];
    payload_distributions = (web_browsing, web_distribution) ∷ [];
    current_load = constant 0 0;
  }
  get_profile video_streaming = record {
    min_cell_size = 64;
    max_cell_size = 1400;
    probing_interval = seconds 10;
    latency_jitter = milliseconds 10;
    ewma_alpha = constant 2 1;
    traffic_weights = (video_streaming, constant 10 1) ∷ [];
    payload_distributions = (video_streaming, video_distribution) ∷ [];
    current_load = constant 0 0;
  }
  get_profile file_download = record {
    min_cell_size = 64;
    max_cell_size = 1400;
    probing_interval = seconds 30;
    latency_jitter = milliseconds 50;
    ewma_alpha = constant 5 2;
    traffic_weights = (file_download, constant 10 1) ∷ [];
    payload_distributions = (file_download, file_distribution) ∷ [];
    current_load = constant 0 0;
  }
  get_profile dynamic = record {
    min_cell_size = 64;
    max_cell_size = 1400;
    probing_interval = seconds 15;
    latency_jitter = milliseconds 20;
    ewma_alpha = constant 1 1;
    traffic_weights =
        (web_browsing, constant 7 1)
        ∷ (video_streaming, constant 2 1)
        ∷ (file_download, constant 1 1)
        ∷ [];
    payload_distributions =
        (web_browsing, web_distribution)
        ∷ (video_streaming, video_distribution)
        ∷ (file_download, file_distribution)
        ∷ [];
    current_load = constant 0 0;
  }

  -- The loop of `selectTrafficType`, with the weight summed so far.
  unfoldable pub pick : Float → Float → List (TrafficType × Float) → TrafficType
  pick r cumulative [] = web_browsing
  pick r cumulative ((t, weight) ∷ m) =
      let rest = pick r (add cumulative weight) m in
      if le r (add cumulative weight) then t else rest

  unfoldable pub select : List (TrafficType × Float) → Float → TrafficType
  select ((t, weight) ∷ []) r = t
  select weights r = pick r (constant 0 0) weights

  unfoldable pub select_traffic_type : Profile → Float → TrafficType
  unfolding select
  select_traffic_type p r = select p.traffic_weights r

  unfoldable pub only_type : List (TrafficType × Float) → TrafficType → TrafficType
  only_type ((t, weight) ∷ []) other = t
  only_type weights other = other

  unfoldable pub get_profile_type : Profile → TrafficType
  unfolding only_type
  get_profile_type p = only_type p.traffic_weights dynamic

  unfoldable pub update_load : Profile → ℕ → Profile
  update_load p latest =
      let normalized = div (of_int latest) (of_int p.max_cell_size) in
      record p {
        current_load =
            add (mul p.current_load (sub (of_int 1) p.ewma_alpha)) (mul normalized p.ewma_alpha);
      }

  -- A missing distribution is a nil interface, on which `Sample` panics.
  unfoldable pub get_next_payload_length : Profile → LengthDraws → Outcome (ℕ × Profile)
  get_next_payload_length p d = do
    dist ← or_panic (lookup (select_traffic_type p d.choice) p.payload_distributions)
    let length = clamp p.max_cell_size (sample dist d)
    ok (length, update_load p length)

  -- `rand.Intn(n)` is a draw modulo `n`, and panics unless `n` is positive.
  unfoldable pub get_next_cell_size : Profile → ℕ → Outcome ℕ
  get_next_cell_size p draw = do
    check (ltb p.min_cell_size p.max_cell_size)
    ok (draw % (p.max_cell_size - p.min_cell_size) + p.min_cell_size)
