-- ===== src/Console.antt =====
-- console/: the text screen, the colour codes, and the keyboard.
pub mod Screen
pub mod Colour
pub mod Keyboard
