-- ===== src/Common/Geo.antt =====
-- src/common/geo.py: distances and bearings on the sphere.
use stream_pipeline.Common.Floats.{Floats}

module _ (fl : Floats) where
  open fl use {
    Float, of_int, lit, add, sub, mul, div, fmod, sqrt, sin, cos, asin, atan2, radians, degrees,
  }

  earth_radius_km : Float
  earth_radius_km = lit 63710088 4

  sqr : Float → Float
  sqr x = mul x x

  unfoldable pub haversine_km : Float → Float → Float → Float → Float
  unfolding earth_radius_km sqr
  haversine_km lat1 lon1 lat2 lon2 =
      let phi1 = radians lat1 in
      let phi2 = radians lat2 in
      let dphi = radians (sub lat2 lat1) in
      let dlam = radians (sub lon2 lon1) in
      let a =
        add (sqr (sin (div dphi (of_int 2))))
          (mul (mul (cos phi1) (cos phi2)) (sqr (sin (div dlam (of_int 2))))) in
      mul (mul (of_int 2) earth_radius_km) (asin (sqrt a))

  unfoldable pub initial_bearing_deg : Float → Float → Float → Float → Float
  initial_bearing_deg lat1 lon1 lat2 lon2 =
      let phi1 = radians lat1 in
      let phi2 = radians lat2 in
      let dlam = radians (sub lon2 lon1) in
      let y = mul (sin dlam) (cos phi2) in
      let x = sub (mul (cos phi1) (sin phi2)) (mul (mul (sin phi1) (cos phi2)) (cos dlam)) in
      fmod (add (degrees (atan2 y x)) (lit 3600 1)) (lit 3600 1)

  unfoldable pub destination_point : Float → Float → Float → Float → Float × Float
  unfolding earth_radius_km
  destination_point lat lon bearing_deg distance_km =
      let delta = div distance_km earth_radius_km in
      let theta = radians bearing_deg in
      let phi1 = radians lat in
      let lam1 = radians lon in
      let phi2 =
        asin (add (mul (sin phi1) (cos delta)) (mul (mul (cos phi1) (sin delta)) (cos theta))) in
      let lam2 = add lam1 (
        atan2 (mul (mul (sin theta) (sin delta)) (cos phi1))
          (sub (cos delta) (mul (sin phi1) (sin phi2)))) in
      (degrees phi2, sub (fmod (add (degrees lam2) (lit 5400 1)) (lit 3600 1)) (lit 1800 1))
