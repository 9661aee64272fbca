-- ===== src/Services/Grades.antt =====
-- `calculate_gpa` of app/services/reports.py: points and bounds.
use system_uni.Prelude.{ℕ, ◌+◌, ◌*◌, ◌≤◌, ◌<◌, List, [], ◌∷◌, length, arith}
use system_uni.Services.Reports.{Rounding, grade_points, sum_points, calculate_gpa}

pub grade_points-le : (g : ℕ) → grade_points g ≤ 40
unfolding grade_points
grade_points-le g = ground arith

-- A better grade never earns fewer points.
pub grade_points_mono : (g h : ℕ) → g ≤ h → grade_points g ≤ grade_points h
unfolding grade_points
grade_points_mono g h le = ground arith

pub sum_points-le : (grades : List ℕ) → sum_points grades ≤ 40 * length grades
unfolding sum_points
sum_points-le [] = omega arith
sum_points-le (g ∷ grades) = omega (arith, grade_points-le g, sum_points-le grades)

mean_capped : (n r : ℕ) → 0 < n → 2 * (n * r) ≤ 801 * n → r ≤ 400
mean_capped n r pos h = grind arith

-- The grade point average of any list of grades is at most 400 hundredths, that is 4.00.
calculate_gpa_bounds : (floats : Rounding) (grades : List ℕ) → calculate_gpa floats grades ≤ 400
unfolding calculate_gpa
calculate_gpa_bounds floats [] = omega arith
calculate_gpa_bounds floats (g ∷ grades) =
    mean_capped (length (g ∷ grades)) (calculate_gpa floats (g ∷ grades)) (omega arith) (
      omega (
        arith,
        floats.mean2_below (sum_points (g ∷ grades)) (length (g ∷ grades)) (omega arith),
        sum_points-le (g ∷ grades),
      ))

-- Every grade earns between `lo` and `hi` tenths of a point.
abbrev pub AllEarn : ℕ → ℕ → List ℕ → Type 0
AllEarn lo hi [] = Unit
AllEarn lo hi (g ∷ grades) = (lo ≤ grade_points g) × (grade_points g ≤ hi) × AllEarn lo hi grades

sum_points_between :
    (lo hi : ℕ) (grades : List ℕ)
    → AllEarn lo hi grades
    → (lo * length grades ≤ sum_points grades) × (sum_points grades ≤ hi * length grades)
unfolding sum_points
sum_points_between lo hi [] h = (omega arith, omega arith)
sum_points_between lo hi (g ∷ grades) (l, u, h) =
    let (below, above) = sum_points_between lo hi grades h in (omega arith, omega arith)

le_of_mean : (n m r : ℕ) → 0 < n → 2 * (n * m) ≤ 2 * (n * r) + n → m ≤ r
le_of_mean n m r pos h = grind arith

mean_between :
    (lo hi n r s : ℕ)
    → 0 < n
    → lo * n ≤ s
    → s ≤ hi * n
    → 20 * s ≤ 2 * (n * r) + n
    → 2 * (n * r) ≤ 20 * s + n
    → (10 * lo ≤ r) × (r ≤ 10 * hi)
mean_between lo hi n r s pos l u a b =
    (le_of_mean n (10 * lo) r pos (omega arith), le_of_mean n r (10 * hi) pos (omega arith))

-- If every grade of a list that is not empty earns between `lo` and `hi` tenths of a point, then
-- the average, in hundredths, lies between ten times `lo` and ten times `hi`.
pub calculate_gpa_between :
    (floats : Rounding) (lo hi g : ℕ) (grades : List ℕ)
    → AllEarn lo hi (g ∷ grades)
    → (10 * lo ≤ calculate_gpa floats (g ∷ grades)) × (calculate_gpa floats (g ∷ grades) ≤ 10 * hi)
unfolding calculate_gpa
calculate_gpa_between floats lo hi g grades h =
    let (below, above) = sum_points_between lo hi (g ∷ grades) h in
    let n = length (g ∷ grades) in
    let s = sum_points (g ∷ grades) in
    let pos : 0 < n = omega arith in
    mean_between lo hi n (floats.mean2 s n) s pos below above (floats.mean2_above s n pos)
      (floats.mean2_below s n pos)
