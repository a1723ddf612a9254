-- ===== src/Isa/Opcode.antt =====
-- src/cbc/isa_rt.h: the values of the opcodes that the decoders test.
use cbc_engine.Prelude.{ℕ}

abbrev pub store_generic : ℕ
store_generic = 64

abbrev pub store_generic_1 : ℕ
store_generic_1 = 65

abbrev pub store_generic_4 : ℕ
store_generic_4 = 66

abbrev pub store_frame_imm_1 : ℕ
store_frame_imm_1 = 204

abbrev pub store_frame_imm_2 : ℕ
store_frame_imm_2 = 205

abbrev pub store_frame_imm_4 : ℕ
store_frame_imm_4 = 206

abbrev pub store_frame_imm_8 : ℕ
store_frame_imm_8 = 207

abbrev pub jmp32 : ℕ
jmp32 = 22

abbrev pub branch_is_ref : ℕ
branch_is_ref = 23

abbrev pub bcc32i : ℕ
bcc32i = 10

abbrev pub bcc64i : ℕ
bcc64i = 11

abbrev pub bcc32l : ℕ
bcc32l = 12

abbrev pub bcc64l : ℕ
bcc64l = 13

abbrev pub bcci32i : ℕ
bcci32i = 14

abbrev pub bcci64i : ℕ
bcci64i = 15

abbrev pub bcci32l : ℕ
bcci32l = 16

abbrev pub bcci64l : ℕ
bcci64l = 17

abbrev pub bccl32i : ℕ
bccl32i = 18

abbrev pub bccl64i : ℕ
bccl64i = 19

abbrev pub bccl32l : ℕ
bccl32l = 20

abbrev pub bccl64l : ℕ
bccl64l = 21

abbrev pub bini32i : ℕ
bini32i = 26

abbrev pub bini64i : ℕ
bini64i = 27

abbrev pub bini32l : ℕ
bini32l = 28

abbrev pub bini64l : ℕ
bini64l = 29

abbrev pub bin32 : ℕ
bin32 = 24

abbrev pub bin64 : ℕ
bin64 = 25

abbrev pub scc32 : ℕ
scc32 = 85

abbrev pub scc64 : ℕ
scc64 = 86

abbrev pub scci32i : ℕ
scci32i = 89

abbrev pub scci64i : ℕ
scci64i = 90

abbrev pub scci32l : ℕ
scci32l = 91

abbrev pub scci64l : ℕ
scci64l = 92

abbrev pub mov : ℕ
mov = 3

abbrev pub movi : ℕ
movi = 4

abbrev pub fmov : ℕ
fmov = 5

abbrev pub movi2f : ℕ
movi2f = 6

abbrev pub movf2i : ℕ
movf2i = 7

abbrev pub nop : ℕ
nop = 2

abbrev pub ret : ℕ
ret = 1

abbrev pub cbin8 : ℕ
cbin8 = 158

abbrev pub cbin16 : ℕ
cbin16 = 159

abbrev pub cbin32 : ℕ
cbin32 = 160

abbrev pub cbin64 : ℕ
cbin64 = 161

abbrev pub sbin8 : ℕ
sbin8 = 187

abbrev pub sbin16 : ℕ
sbin16 = 188

abbrev pub sbin32 : ℕ
sbin32 = 189

abbrev pub sbin64 : ℕ
sbin64 = 190

abbrev pub cbini8i : ℕ
cbini8i = 162

abbrev pub cbini16i : ℕ
cbini16i = 163

abbrev pub cbini32i : ℕ
cbini32i = 164

abbrev pub cbini64i : ℕ
cbini64i = 165

abbrev pub cbini8w : ℕ
cbini8w = 166

abbrev pub cbini16w : ℕ
cbini16w = 167

abbrev pub cbini32w : ℕ
cbini32w = 168

abbrev pub cbini64w : ℕ
cbini64w = 169

abbrev pub sbinimm8 : ℕ
sbinimm8 = 191

abbrev pub sbinimm16 : ℕ
sbinimm16 = 192

abbrev pub sbinimm32 : ℕ
sbinimm32 = 193

abbrev pub sbinimm64 : ℕ
sbinimm64 = 194

abbrev pub sbinimm8w : ℕ
sbinimm8w = 195

abbrev pub sbinimm16w : ℕ
sbinimm16w = 196

abbrev pub sbinimm32w : ℕ
sbinimm32w = 197

abbrev pub sbinimm64w : ℕ
sbinimm64w = 198

abbrev pub copy_derived : ℕ
copy_derived = 170

abbrev pub copy_derived_generic : ℕ
copy_derived_generic = 171

abbrev pub copy_local : ℕ
copy_local = 172

abbrev pub copy_to_local : ℕ
copy_to_local = 173

abbrev pub copy_from_local : ℕ
copy_from_local = 174

abbrev pub copy_local_generic : ℕ
copy_local_generic = 175

abbrev pub copy_to_local_generic : ℕ
copy_to_local_generic = 176

abbrev pub copy_from_local_generic : ℕ
copy_from_local_generic = 177

abbrev pub copy_typeslot : ℕ
copy_typeslot = 178

abbrev pub copy_typeslot_generic : ℕ
copy_typeslot_generic = 181

abbrev pub copy_to_typeslot : ℕ
copy_to_typeslot = 179

abbrev pub copy_to_typeslot_generic : ℕ
copy_to_typeslot_generic = 182

abbrev pub copy_from_typeslot : ℕ
copy_from_typeslot = 180

abbrev pub copy_from_typeslot_generic : ℕ
copy_from_typeslot_generic = 183

abbrev pub index : ℕ
index = 184

abbrev pub index_generic : ℕ
index_generic = 185

abbrev pub const_index_generic : ℕ
const_index_generic = 186

abbrev pub newobj_pinned_g : ℕ
newobj_pinned_g = 39

abbrev pub newobj_g : ℕ
newobj_g = 38

abbrev pub newobj_acc_g : ℕ
newobj_acc_g = 40

abbrev pub newobj_pinned : ℕ
newobj_pinned = 37

abbrev pub newobj : ℕ
newobj = 36

abbrev pub newarr : ℕ
newarr = 41

abbrev pub newarr_g : ℕ
newarr_g = 42

abbrev pub initclosure_sret : ℕ
initclosure_sret = 44

abbrev pub initclosure : ℕ
initclosure = 43

abbrev pub spawn : ℕ
spawn = 45

abbrev pub spawn_future : ℕ
spawn_future = 46

abbrev pub gc_point : ℕ
gc_point = 106

abbrev pub virtual_call : ℕ
virtual_call = 103

abbrev pub divcheck : ℕ
divcheck = 111

abbrev pub nullcheck : ℕ
nullcheck = 110

abbrev pub array_index_check : ℕ
array_index_check = 112

abbrev pub iof : ℕ
iof = 114

abbrev pub throw : ℕ
throw = 121

abbrev pub catch : ℕ
catch = 122

abbrev pub load_generic_ti : ℕ
load_generic_ti = 113

abbrev pub newbox2 : ℕ
newbox2 = 116

abbrev pub unbox_t : ℕ
unbox_t = 117

abbrev pub assign_generic : ℕ
assign_generic = 124

abbrev pub iof_generic : ℕ
iof_generic = 125

abbrev pub stk_param : ℕ
stk_param = 199

abbrev pub stk_param_f : ℕ
stk_param_f = 200

abbrev pub lea_stack_param : ℕ
lea_stack_param = 203
