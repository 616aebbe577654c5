-- ===== src/JavaProfileData.antt =====
-- JavaProfileData.java: the reader of the profiles of Java programs. It extends `ProfileData` and
-- overrides `readSample`. A sample's slots are pairs of a method and a line; each pair is a location
-- with a number, and the sample becomes the array of the numbers.
pub mod Numbering
pub mod Resolve
pub mod Size
pub mod Frames
pub mod Termination
pub mod SourceLine
pub mod ByMethod
use javaprofiler.Base.{
  ℕ, zero, suc, ◌+◌, ◌*◌, ◌/◌, ◌%◌, ◌^◌, ℤ, pos, negsuc, to_int, to_word, int_eq, Bool, ◌&&◌,
  Option, none, some, List, [], ◌∷◌, ◌++◌, length, if◌then◌else◌, ◌==◌,
}
use Prim.Native.Nat.{bit_xor}
use javaprofiler.Reader.{
  Read, done, exception, SampleReader, Observation, record_sample, read_slot, read,
}

-- `methodid` is a `long`, by its 64-bit pattern.
pub record JavaLocation : Type 0 where
  pub methodid : ℕ
  pub line : ℤ

-- `equals`
abbrev pub same_location : JavaLocation → JavaLocation → Bool
same_location a b = int_eq a.line b.line && a.methodid == b.methodid

-- `hashCode`, as a 32-bit pattern.
unfoldable pub hash_code : JavaLocation → ℕ
hash_code l =
    let result : ℕ = (31 * 1 + to_word l.line) % 2 ^ 32 in
    (31 * result + bit_xor l.methodid (l.methodid / 2 ^ 32)) % 2 ^ 32

-- The fields of the object. The hash map is a list of its entries.
pub record JavaProfileData : Type 0 where
  pub observations : List Observation
  pub locations : List JavaLocation
  pub location_to_index : List (JavaLocation × ℕ)

unfoldable pub new_data : JavaProfileData
new_data = record { observations = []; locations = []; location_to_index = [] }

-- `locationToIndex.get(location)`
unfoldable pub find_index : JavaLocation → List (JavaLocation × ℕ) → Option ℕ
find_index l [] = none
find_index l ((k, i) ∷ entries) = if same_location k l then some i else find_index l entries

-- The number of a location, which is a new one if the location is new.
unfoldable pub number : JavaLocation → JavaProfileData → ℕ × JavaProfileData
number l d = elim (find_index l d.location_to_index) [
  | some i ↦ (i, d)
  | none ↦ (
    length d.locations,
    record d {
      locations = d.locations ++ (l ∷ []);
      location_to_index = (l, length d.locations) ∷ d.location_to_index;
    },
  )
]

-- The loop over the pairs of slots of a sample.
unfoldable pub read_locations : ℕ → JavaProfileData → List ℕ → List ℕ × JavaProfileData × List ℕ
read_locations zero d bytes = ([], d, bytes)
read_locations (suc n) d bytes =
    let (method_id, r₁) = read_slot bytes in
    let (line, r₂) = read_slot r₁ in
    let (i, d₁) = number (record { methodid = method_id; line = to_int line }) d in
    let (sample, d₂, r₃) = read_locations n d₁ r₂ in (i ∷ sample, d₂, r₃)

-- The sample goes to the `recordSample` of the base class.
abbrev pub recorded : List ℕ → ℕ → JavaProfileData → JavaProfileData
recorded sample sample_count d = record d {
  observations = record_sample sample sample_count d.observations;
}

-- A negative depth throws too, either as an odd one or as the size of an array.
unfoldable pub read_java_sample_of :
    ℤ → ℕ → JavaProfileData → List ℕ → Read (JavaProfileData × List ℕ)
read_java_sample_of (negsuc n) sample_count d bytes = exception
read_java_sample_of (pos depth) sample_count d bytes =
    let (sample, d', rest) = read_locations (depth / 2) d bytes in
    if depth % 2 == 0 then done (recorded sample sample_count d', rest) else exception

-- `readSample(sampleCount, (int) depth)`
unfoldable pub read_java_sample : SampleReader JavaProfileData
unfolding read_java_sample_of
read_java_sample sample_count depth d bytes =
    read_java_sample_of (to_int depth) sample_count d bytes

-- `read`, of a new object.
unfoldable pub read_java_file : List ℕ → Read JavaProfileData
read_java_file bytes = read read_java_sample (1 + length bytes) new_data bytes
