-- ===== src/Examples/Screen.antt =====
-- A screen with its cursor in the last place, and runs of console/console.cpp on it.
use arabos.Prelude.{refl, [], arith, replicate}
use arabos.Console.Screen.{Console, putchar}
use arabos.Console.Screen.Cells.{OnScreen, IsShown, putchar-IsShown}

abbrev corner : Console
corner = record {
  tty = record { xpos = 79; ypos = 24; cells = replicate 2000 0x0720 };
  video = [];
  ports = [];
  printed_chars = 0;
}

corner-OnScreen : OnScreen corner.tty
corner-OnScreen = record { column = omega arith; line = omega arith; full = refl }

putchar-IsShown_example : IsShown (putchar corner 0x0741)
putchar-IsShown_example = putchar-IsShown corner 0x0741 corner-OnScreen
