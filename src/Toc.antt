-- ===== src/Toc.antt =====
-- toc/toc.go: the table of contents of a backup. The YAML files that it is read from and written
-- to are outside the model; so are the map's unknown section names, which no caller passes.
pub mod Filters
pub mod Statements
pub mod DataEntries
use gpbackup.Base.{
  ℕ, zero, suc, ◌+◌, ◌-◌, ◌*◌, ◌/◌, ◌%◌, ◌≤◌, ◌<◌, String, ◌<>◌, len, slice, ◌≡◌, refl, sym, ap,
  subst, ◌∙◌, ◌≢◌, ◌↔◌, ◌⊎◌, inl, inr, Bool, true, false, not, ◌&&◌, ◌||◌, Option, none, some, List,
  [], ◌∷◌, ◌++◌, map, arith, ltb, leb, nat_beq, if◌then◌else◌, nat_beq_iff, ltb→lt, lt→ltb, leb→le,
  Bool-cases, Option-cases, &&_left, &&_right, Comparable, ◌==◌, nat_comparable, string_comparable,
  ==_refl, ==_sound, ==_sym, length, is_empty, get_elem?, drop, filter, All, length-append,
  filter-append, All-append, All-map,
}
use gpbackup.Base.Maps.{GoMap, keys, lookup, put, delete, lookup-put, lookup-none}
use gpbackup.Base.Words.{ℤ}

pub record MetadataEntry : Type 0 where
  pub schema : String
  pub name : String
  pub object_type : String
  pub reference_object : String
  pub start_byte : ℕ
  pub end_byte : ℕ
  pub tier : List ℕ

pub record CoordinatorDataEntry : Type 0 where
  pub schema : String
  pub name : String
  pub oid : ℕ
  pub attribute_string : String
  pub rows_copied : ℤ
  pub partition_root : String
  pub is_replicated : Bool
  pub dist_by_enum : Bool

pub record SegmentDataEntry : Type 0 where
  pub start_byte : ℕ
  pub end_byte : ℕ

pub record AoEntry : Type 0 where
  pub modcount : ℤ
  pub last_ddl_timestamp : String

-- The keys of `metadataEntryMap`.
pub data Section : Type 0 where
  global predata postdata statistics : Section

pub record Toc : Type 0 where
  pub global_entries : List MetadataEntry
  pub predata_entries : List MetadataEntry
  pub postdata_entries : List MetadataEntry
  pub statistics_entries : List MetadataEntry
  pub data_entries : List CoordinatorDataEntry
  pub ao : GoMap String AoEntry

pub record SegmentToc : Type 0 where
  pub data_entries : GoMap ℕ SegmentDataEntry

pub record StatementWithType : Type 0 where
  pub schema : String
  pub name : String
  pub object_type : String
  pub reference_object : String
  pub statement : String
  pub tier : List ℕ

-- `*toc.metadataEntryMap[section]`
unfoldable pub section_entries : Section → Toc → List MetadataEntry
section_entries global toc = toc.global_entries
section_entries predata toc = toc.predata_entries
section_entries postdata toc = toc.postdata_entries
section_entries statistics toc = toc.statistics_entries

set_section_entries : Section → Toc → List MetadataEntry → Toc
set_section_entries global toc l = record toc { global_entries = l }
set_section_entries predata toc l = record toc { predata_entries = l }
set_section_entries postdata toc l = record toc { postdata_entries = l }
set_section_entries statistics toc l = record toc { statistics_entries = l }

unfoldable pub add_metadata_entry : Toc → Section → MetadataEntry → ℕ → ℕ → List ℕ → Toc
unfolding section_entries set_section_entries
add_metadata_entry toc section entry start end tier = set_section_entries section toc (
    section_entries section toc
    ++ record entry { start_byte = start; end_byte = end; tier = tier } ∷ [])

unfoldable pub add_segment_data_entry : SegmentToc → ℕ → ℕ → ℕ → SegmentToc
add_segment_data_entry toc oid start_byte end_byte = record {
  data_entries = put oid (record { start_byte = start_byte; end_byte = end_byte }) toc.data_entries;
}

-- An entry that is added stands last in its section, under its byte range and tier, and the
-- other sections stay as they are.
pub section_entries-add :
    (toc : Toc) (section other : Section) (entry : MetadataEntry) (start end : ℕ) (tier : List ℕ)
    → (section_entries section (add_metadata_entry toc section entry start end tier)
        ≡ section_entries section toc
          ++ record entry { start_byte = start; end_byte = end; tier = tier } ∷ [])
      × (other ≢ section
          → section_entries other (add_metadata_entry toc section entry start end tier)
            ≡ section_entries other toc)
unfolding section_entries add_metadata_entry
section_entries-add toc global other entry start end tier = (refl, λ h. ground arith)
section_entries-add toc predata other entry start end tier = (refl, λ h. ground arith)
section_entries-add toc postdata other entry start end tier = (refl, λ h. ground arith)
section_entries-add toc statistics other entry start end tier = (refl, λ h. ground arith)
