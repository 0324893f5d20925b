-- ===== src/Snapshot/Tests/Layouts.antt =====
-- Layouts for the tests: one cell for each field, in order.
use mo_vm.Common.{ℕ, ◌+◌, ◌*◌, ◌≡◌, refl, ap, sym, List, [], ◌∷◌, get_or}
use mo_vm.Vcpu.{Regs, Segment, Sregs, Fpu}
use mo_vm.Snapshot.Serial.{Layout}

abbrev pub regs_layout : Layout Regs
regs_layout = record {
  size_of = 18;
  as_bytes = λ r.
      r.rax ∷ r.rbx ∷ r.rcx ∷ r.rdx ∷ r.rsi ∷ r.rdi ∷ r.rsp ∷ r.rbp ∷ r.r8 ∷ r.r9 ∷ r.r10 ∷ r.r11
      ∷ r.r12 ∷ r.r13 ∷ r.r14 ∷ r.r15 ∷ r.rip ∷ r.rflags ∷ [];
  read = λ bs. record {
    rax = get_or bs 0 0;
    rbx = get_or bs 1 0;
    rcx = get_or bs 2 0;
    rdx = get_or bs 3 0;
    rsi = get_or bs 4 0;
    rdi = get_or bs 5 0;
    rsp = get_or bs 6 0;
    rbp = get_or bs 7 0;
    r8 = get_or bs 8 0;
    r9 = get_or bs 9 0;
    r10 = get_or bs 10 0;
    r11 = get_or bs 11 0;
    r12 = get_or bs 12 0;
    r13 = get_or bs 13 0;
    r14 = get_or bs 14 0;
    r15 = get_or bs 15 0;
    rip = get_or bs 16 0;
    rflags = get_or bs 17 0;
  };
  Fits = λ r. Unit {0};
  length-as_bytes = λ r _. refl;
  read-as_bytes = λ r _. refl;
}

abbrev pub segment_cells : Segment → List ℕ → List ℕ
segment_cells s rest =
    s.base ∷ s.limit ∷ s.selector ∷ s.type_ ∷ s.present ∷ s.dpl ∷ s.db ∷ s.s ∷ s.l ∷ s.g ∷ s.avl
    ∷ s.unusable ∷ rest

abbrev pub segment_at : List ℕ → ℕ → Segment
segment_at bs i = record {
  base = get_or bs (i * 12 + 0) 0;
  limit = get_or bs (i * 12 + 1) 0;
  selector = get_or bs (i * 12 + 2) 0;
  type_ = get_or bs (i * 12 + 3) 0;
  present = get_or bs (i * 12 + 4) 0;
  dpl = get_or bs (i * 12 + 5) 0;
  db = get_or bs (i * 12 + 6) 0;
  s = get_or bs (i * 12 + 7) 0;
  l = get_or bs (i * 12 + 8) 0;
  g = get_or bs (i * 12 + 9) 0;
  avl = get_or bs (i * 12 + 10) 0;
  unusable = get_or bs (i * 12 + 11) 0;
}

abbrev pub sregs_layout : Layout Sregs
sregs_layout = record {
  size_of = 111;
  as_bytes = λ s. segment_cells s.cs (
      segment_cells s.ds (
        segment_cells s.es (
          segment_cells s.fs (
            segment_cells s.gs (
              segment_cells s.ss (
                segment_cells s.tr (
                  segment_cells s.ldt (
                    s.gdt.base
                    ∷ s.gdt.limit
                    ∷ s.idt.base
                    ∷ s.idt.limit
                    ∷ s.cr0
                    ∷ s.cr2
                    ∷ s.cr3
                    ∷ s.cr4
                    ∷ s.cr8
                    ∷ s.efer
                    ∷ s.apic_base
                    ∷ get_or s.interrupt_bitmap 0 0
                    ∷ get_or s.interrupt_bitmap 1 0
                    ∷ get_or s.interrupt_bitmap 2 0
                    ∷ get_or s.interrupt_bitmap 3 0
                    ∷ []))))))));
  read = λ bs. record {
    cs = segment_at bs 0;
    ds = segment_at bs 1;
    es = segment_at bs 2;
    fs = segment_at bs 3;
    gs = segment_at bs 4;
    ss = segment_at bs 5;
    tr = segment_at bs 6;
    ldt = segment_at bs 7;
    gdt = record { base = get_or bs 96 0; limit = get_or bs 97 0 };
    idt = record { base = get_or bs 98 0; limit = get_or bs 99 0 };
    cr0 = get_or bs 100 0;
    cr2 = get_or bs 101 0;
    cr3 = get_or bs 102 0;
    cr4 = get_or bs 103 0;
    cr8 = get_or bs 104 0;
    efer = get_or bs 105 0;
    apic_base = get_or bs 106 0;
    interrupt_bitmap = get_or bs 107 0 ∷ get_or bs 108 0 ∷ get_or bs 109 0 ∷ get_or bs 110 0 ∷ [];
  };
  Fits = λ s.
      s.interrupt_bitmap
      ≡ get_or s.interrupt_bitmap 0 0
        ∷ get_or s.interrupt_bitmap 1 0
        ∷ get_or s.interrupt_bitmap 2 0
        ∷ get_or s.interrupt_bitmap 3 0
        ∷ [];
  length-as_bytes = λ s _. refl;
  read-as_bytes = λ s four. ap (λ l. record s { interrupt_bitmap = l }) (sym four);
}

-- Only the named fields, so the others have to be empty.
abbrev pub fpu_layout : Layout Fpu
fpu_layout = record {
  size_of = 2;
  as_bytes = λ f. f.fcw ∷ f.mxcsr ∷ [];
  read = λ bs. record { fcw = get_or bs 0 0; mxcsr = get_or bs 1 0; other_fpu = [] };
  Fits = λ f. f.other_fpu ≡ [];
  length-as_bytes = λ f _. refl;
  read-as_bytes = λ f none. ap (λ l. record f { other_fpu = l }) (sym none);
}
