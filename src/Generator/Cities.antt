-- ===== src/Generator/Cities.antt =====
-- src/generator/cities.py: the cities, and the points sampled in them.
use stream_pipeline.Prelude.{ℕ, String, Option, none, some, List, [], ◌∷◌, ◌==◌, if◌then◌else◌}
use stream_pipeline.Common.Floats.{Floats, lower, higher}
use stream_pipeline.Generator.Random.{Random}

pub record Hotspot (F : Type 0) : Type 0 where
  pub lat : F
  pub lon : F
  pub sigma_km : F
  pub weight : F

-- The hotspots are not empty: the first of them, and the others.
pub record City (F : Type 0) : Type 0 where
  pub city_id : ℕ
  pub name : String
  pub center_lat : F
  pub center_lon : F
  pub min_lat : F
  pub max_lat : F
  pub min_lon : F
  pub max_lon : F
  pub demand_weight : F
  pub hotspot : Hotspot F
  pub hotspots : List (Hotspot F)

abbrev last_of : {A : Type 0} → A → List A → A
last_of a [] = a
last_of a (b ∷ bs) = last_of b bs

abbrev pub city_in : {F : Type 0} → ℕ → List (City F) → Option (City F)
city_in city_id [] = none
city_in city_id (c ∷ cs) =
    let rest = city_in city_id cs in if c.city_id == city_id then some c else rest

module _ (fl : Floats) where
  open fl use {Float, of_int, lit, add, mul, div, lt}

  unfoldable pub clamp : City Float → Float → Float → Float × Float
  clamp city lat lon = (
    lower fl (higher fl lat city.min_lat) city.max_lat,
    lower fl (higher fl lon city.min_lon) city.max_lon,
  )

  abbrev spot : Float → Float → Float → Float → Hotspot Float
  spot lat lon sigma_km weight = record {
    lat = lat;
    lon = lon;
    sigma_km = sigma_km;
    weight = weight;
  }

  abbrev pub bengaluru : City Float
  bengaluru = record {
    city_id = 1;
    name = "Bengaluru";
    center_lat = lit 129716 4;
    center_lon = lit 775946 4;
    min_lat = lit 1283 2;
    max_lat = lit 1314 2;
    min_lon = lit 7746 2;
    max_lon = lit 7778 2;
    demand_weight = lit 100 2;
    hotspot = spot (lit 129716 4) (lit 775946 4) (lit 25 1) (lit 35 2);
    hotspots =
        spot (lit 129352 4) (lit 776245 4) (lit 20 1) (lit 25 2)
        ∷ spot (lit 130359 4) (lit 775970 4) (lit 20 1) (lit 20 2)
        ∷ spot (lit 129569 4) (lit 777011 4) (lit 25 1) (lit 20 2)
        ∷ [];
  }

  abbrev mumbai : City Float
  mumbai = record {
    city_id = 2;
    name = "Mumbai";
    center_lat = lit 190760 4;
    center_lon = lit 728777 4;
    min_lat = lit 1889 2;
    max_lat = lit 1928 2;
    min_lon = lit 7277 2;
    max_lon = lit 7303 2;
    demand_weight = lit 95 2;
    hotspot = spot (lit 190760 4) (lit 728777 4) (lit 25 1) (lit 30 2);
    hotspots =
        spot (lit 190176 4) (lit 728562 4) (lit 20 1) (lit 30 2)
        ∷ spot (lit 191136 4) (lit 728697 4) (lit 20 1) (lit 25 2)
        ∷ spot (lit 192183 4) (lit 729781 4) (lit 30 1) (lit 15 2)
        ∷ [];
  }

  abbrev delhi : City Float
  delhi = record {
    city_id = 3;
    name = "Delhi";
    center_lat = lit 286139 4;
    center_lon = lit 772090 4;
    min_lat = lit 2840 2;
    max_lat = lit 2888 2;
    min_lon = lit 7694 2;
    max_lon = lit 7741 2;
    demand_weight = lit 90 2;
    hotspot = spot (lit 286139 4) (lit 772090 4) (lit 30 1) (lit 30 2);
    hotspots =
        spot (lit 285562 4) (lit 771000 4) (lit 25 1) (lit 25 2)
        ∷ spot (lit 286304 4) (lit 772177 4) (lit 20 1) (lit 25 2)
        ∷ spot (lit 284595 4) (lit 770266 4) (lit 30 1) (lit 20 2)
        ∷ [];
  }

  abbrev hyderabad : City Float
  hyderabad = record {
    city_id = 4;
    name = "Hyderabad";
    center_lat = lit 173850 4;
    center_lon = lit 784867 4;
    min_lat = lit 1720 2;
    max_lat = lit 1760 2;
    min_lon = lit 7824 2;
    max_lon = lit 7865 2;
    demand_weight = lit 60 2;
    hotspot = spot (lit 173850 4) (lit 784867 4) (lit 25 1) (lit 35 2);
    hotspots =
        spot (lit 174435 4) (lit 783772 4) (lit 25 1) (lit 35 2)
        ∷ spot (lit 174933 4) (lit 783915 4) (lit 20 1) (lit 30 2)
        ∷ [];
  }

  abbrev pub chennai : City Float
  chennai = record {
    city_id = 5;
    name = "Chennai";
    center_lat = lit 130827 4;
    center_lon = lit 802707 4;
    min_lat = lit 1290 2;
    max_lat = lit 1323 2;
    min_lon = lit 8010 2;
    max_lon = lit 8032 2;
    demand_weight = lit 55 2;
    hotspot = spot (lit 130827 4) (lit 802707 4) (lit 25 1) (lit 40 2);
    hotspots =
        spot (lit 130475 4) (lit 802090 4) (lit 20 1) (lit 30 2)
        ∷ spot (lit 129791 4) (lit 802212 4) (lit 25 1) (lit 30 2)
        ∷ [];
  }

  abbrev pub cities : List (City Float)
  cities = bengaluru ∷ mumbai ∷ delhi ∷ hyderabad ∷ chennai ∷ []

  -- `CITY_BY_ID`; the identifiers differ
  unfoldable pub city_by_id : ℕ → Option (City Float)
  city_by_id city_id = city_in city_id cities

  -- `sum(h.weight for h in hotspots)`, from the left
  abbrev weights : Float → List (Hotspot Float) → Float
  weights acc [] = acc
  weights acc (h ∷ hs) = weights (add acc h.weight) hs

  -- the first hotspot at whose accumulated weight the roll is reached, or else the last one
  abbrev pick_spot : Float → Float → Hotspot Float → List (Hotspot Float) → Hotspot Float
  pick_spot roll acc last [] = last
  pick_spot roll acc last (h ∷ hs) =
      let rest = pick_spot roll (add acc h.weight) last hs in
      if lt (add acc h.weight) roll then rest else h

  unfoldable pub sample_hotspot_point :
      (r : Random fl) → City Float → r.State → (Float × Float) × r.State
  unfolding clamp
  sample_hotspot_point r city rng =
      let spots = city.hotspot ∷ city.hotspots in
      let (roll, rng1) = r.random rng in
      let chosen =
        pick_spot (mul roll (weights (of_int 0) spots)) (of_int 0)
          (last_of city.hotspot city.hotspots) spots in
      let sigma_deg = div chosen.sigma_km (lit 11132 2) in
      let (lat, rng2) = r.gauss chosen.lat sigma_deg rng1 in
      let (lon, rng3) = r.gauss chosen.lon sigma_deg rng2 in (clamp city lat lon, rng3)

  -- `TOTAL_DEMAND_WEIGHT`
  abbrev total_weight : Float → List (City Float) → Float
  total_weight acc [] = acc
  total_weight acc (c ∷ cs) = total_weight (add acc c.demand_weight) cs

  abbrev pub total_demand_weight : Float
  total_demand_weight = total_weight (of_int 0) cities

  -- the loop of `_pick_city`: the first city whose accumulated weight the roll does not pass, or
  -- else the last one
  unfoldable pub pick_city : Float → Float → City Float → List (City Float) → City Float
  pick_city roll acc last [] = last
  pick_city roll acc last (c ∷ cs) =
      let rest = pick_city roll (add acc c.demand_weight) last cs in
      if lt (add acc c.demand_weight) roll then rest else c
