-- ===== src/Tests/Create.antt =====
-- The dynamic sections of an executable.
use soft_hier_release_test.Base.{Bool, true, false, none, some, ◌≡◌, refl}
use soft_hier_release_test.Memory.{done, fault}
use soft_hier_release_test.Elf.Create.{
  DynSections, CreateHost, define_got_sym, make_gotplt, make_got, create_got_section, make_tdata,
  is_missing, create_dynamic_sections,
}
use soft_hier_release_test.Elf.Create.Created.{
  KeepsGot, IsCreated, create_dynamic_sections-IsCreated,
}

abbrev host : Bool → CreateHost
host tdata = record {
  got_header_size = 4;
  want_got_plt = true;
  want_got_sym = true;
  relgot_made = true;
  got_made = true;
  gotplt_made = true;
  linkage_sym = some 7;
  create_others =
      λ s. (true, record s { splt = some 0; srelplt = some 0; sdynbss = some 0; srelbss = some 0 });
  pic = false;
  tdata_made = tdata;
}

abbrev nothing : DynSections
nothing = record {
  srelgot = none;
  sgot = none;
  sgotplt = none;
  hgot = none;
  splt = none;
  srelplt = none;
  sdynbss = none;
  srelbss = none;
  sdyntdata = none;
}

abbrev all : DynSections
all = record {
  srelgot = some 0;
  sgot = some 4;
  sgotplt = some 8;
  hgot = some 7;
  splt = some 0;
  srelplt = some 0;
  sdynbss = some 0;
  srelbss = some 0;
  sdyntdata = some 0;
}

create_run : create_dynamic_sections (host true) nothing ≡ done (true, all)
unfolding create_dynamic_sections create_got_section make_got make_gotplt define_got_sym make_tdata
    is_missing
create_run = refl

-- Without .tdata.dyn an executable is aborted.
create_abort : create_dynamic_sections (host false) nothing ≡ fault
unfolding create_dynamic_sections create_got_section make_got make_gotplt define_got_sym make_tdata
    is_missing
create_abort = refl

create_keeps : KeepsGot (host true)
unfolding KeepsGot
create_keeps u made = (refl, refl)

create_dynamic_sections-IsCreated_example : IsCreated (host true) nothing all
create_dynamic_sections-IsCreated_example =
    create_dynamic_sections-IsCreated (host true) nothing all create_keeps refl create_run
